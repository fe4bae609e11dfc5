-- ===== src/Proto/Pictures.antt =====
-- How `prot_com_in` of server/proto.c reads the bands of a picture that `s3d_load_texture` sends.
use s3d.Proto.Bands.{pixels-read, dist, step_fits, linestep_pos, area, area_pos, lines_at-cases}
use mathlib.Core.Path.{subst}
use s3d.Base.{
  ℕ, zero, suc, ◌+◌, ◌-◌, ◌*◌, ◌^◌, ◌≤◌, ◌<◌, ◌≡◌, refl, sym, ap₂, ◌∙◌, arith, true, false,
  Bool-cases, inl, inr, ltb→lt, some, List, [], ◌∷◌, ◌++◌, length, ltb, ◌==◌, take, drop,
  length-take, length-drop, take-append-drop,
}
use s3d.Client.{Packet}
use s3d.Client.Whole.{drop-plus}
use s3d.Client.Picture.{linestep, band, bands, s3d_load_texture}
use s3d.Object.Request.{Request}
use s3d.Proto.{Command, decode, decode_object, decode_push, decode_pep, decode_load}

-- what the server reads from the packets of a client
unfoldable pub read_all : List Packet → List Command
read_all [] = []
read_all (p ∷ ps) = decode true p.0 p.1 ∷ read_all ps

-- The commands draw the picture from line `y` on, one band of lines below the other.
abbrev pub Covers : ℕ → ℕ → ℕ → ℕ → ℕ → List ℕ → List Command → Type 0
Covers object tex x w y image [] = image ≡ []
Covers object tex x w y image (c ∷ cs) =
    (lines : ℕ) × (pix : List ℕ) × (below : List ℕ) × (c
      ≡ Command.on_data (Request.load_tex object tex x y w lines pix))
    × (length pix ≡ w * lines * 4)
    × (image ≡ pix ++ below)
    × Covers object tex x w (y + lines) below cs

nil_of : (xs : List ℕ) → length xs ≡ 0 → xs ≡ []
nil_of [] e = refl
nil_of (x ∷ xs) e = absurd (omega arith)

bands-past :
    (object tex x y w h step : ℕ) (image : List ℕ) (rounds i : ℕ)
    → h ≤ i
    → bands object tex x y w h step image rounds i ≡ []
unfolding bands
bands-past object tex x y w h step image zero i e = refl
bands-past object tex x y w h step image (suc rounds) i e = ground arith

module _ (object tex x y w h step : ℕ) (image : List ℕ) (ho : object < 2 ^ 32) (ht : tex < 2 ^ 32)
    (hx : x < 2 ^ 16) (hw : 0 < w × w < 2 ^ 16) (hy : y + h ≤ 2 ^ 16) (hh : h < 2 ^ 16)
    (hs : 0 < step × step * w * 4 ≤ 65514) (len : length image ≡ h * w * 4) where
  -- the rest of the picture behind its last line
  behind : (i : ℕ) → h ≤ i → drop (i * w * 4) image ≡ []
  behind i e =
      nil_of (drop (i * w * 4) image)
        (grind (arith, length-drop (i * w * 4) image, dist h (i - h) w))

  length-part :
      (i lines : ℕ)
      → i + lines ≤ h
      → length (take (lines * w * 4) (drop (i * w * 4) image)) ≡ lines * w * 4
  length-part i lines e = grind (
    arith,
    length-take (lines * w * 4) (drop (i * w * 4) image),
    length-drop (i * w * 4) image,
    dist i lines w,
    dist (i + lines) (h - i - lines) w,
  )

  band-read :
      (i lines : ℕ)
      → i + lines ≤ h
      → 0 < lines
      → lines ≤ step
      → decode true (band object tex x y w lines image i).0 (band object tex x y w lines image i).1
        ≡ Command.on_data (
            Request.load_tex object tex x
              (y + i)
              w
              lines
              (take (lines * w * 4) (drop (i * w * 4) image)))
  unfolding band decode decode_object decode_push decode_pep decode_load
  band-read i lines a b c =
      pixels-read object tex x (y + i) w lines (take (lines * w * 4) (drop (i * w * 4) image)) ho ht
        hx (omega arith) hw.1 (omega arith) (rw (length-part i lines a) (area_pos lines w b hw.0))
        (rw (length-part i lines a) (grind (arith, dist lines (step - lines) w)))
        (area lines w ∙ sym (length-part i lines a))

  -- one band in front of what the other bands cover
  below :
      (i lines : ℕ) (cs : List Command)
      → i + lines ≤ h
      → 0 < lines
      → lines ≤ step
      → Covers object tex x w (y + (i + lines)) (drop ((i + lines) * w * 4) image) cs
      → Covers object tex x w (y + i) (drop (i * w * 4) image) (
          decode true
            (band object tex x y w lines image i).0
            (band object tex x y w lines image i).1
          ∷ cs)
  below i lines cs a b c rest = (
    lines,
    take (lines * w * 4) (drop (i * w * 4) image),
    drop (lines * w * 4) (drop (i * w * 4) image),
    band-read i lines a b c,
    length-part i lines a ∙ sym (area lines w),
    sym (take-append-drop (lines * w * 4) (drop (i * w * 4) image)),
    subst2 (omega arith)
        (sym (drop-plus (i * w * 4) (lines * w * 4) ((i + lines) * w * 4) image (dist i lines w)))
        rest,
  )
    where
      subst2 :
          {a b : ℕ} {p q : List ℕ}
          → a ≡ b
          → p ≡ q
          → Covers object tex x w a p cs
          → Covers object tex x w b q cs
      subst2 e f k =
          subst (λ (r : ℕ × List ℕ). Covers object tex x w r.0 r.1 cs) (ap₂ (λ u v. (u, v)) e f) k

  covers :
      (rounds i : ℕ)
      → h ≤ i + rounds
      → Covers object tex x w
          (y + i)
          (drop (i * w * 4) image)
          (read_all (bands object tex x y w h step image rounds i))
  unfolding bands read_all
  covers zero i e = behind i (omega arith)
  covers (suc rounds) i e = elim (Bool-cases (ltb i h)) [
    | inl c ↦
        let lt = ltb→lt i h c in
        rw c (elim (lines_at-cases step h i lt) [
          | inl (l, k) ↦ rw l (
              below i step (read_all (bands object tex x y w h step image rounds (i + step))) k hs.0
                (omega arith) (covers rounds (i + step) (omega arith)))
          | inr (l, k) ↦
              rw (l, bands-past object tex x y w h step image rounds (i + step) k)
                (below i (h - i) [] (omega arith) (ground arith) (omega arith)
                  (behind (i + (h - i)) (omega arith)))
        ])
    | inr c ↦ rw c (behind i (ground arith))
  ]

-- The server reads from the packets of `s3d_load_texture`, when the picture is not in shared memory,
-- commands that draw the whole picture, one band of lines below the other, if a line has a pixel at
-- least and fits into a packet, if the picture has fewer than 2 ^ 16 lines and ends within 2 ^ 16
-- lines, if the ids have 32 bits and `x` 16, and if `image` has `h` lines of `w` pixels.
pub load_texture-Covers :
    (object tex x y w h : ℕ) (image : List ℕ)
    → object < 2 ^ 32
    → tex < 2 ^ 32
    → x < 2 ^ 16
    → 0 < w
    → w ≤ 16378
    → y + h ≤ 2 ^ 16
    → h < 2 ^ 16
    → length image ≡ h * w * 4
    → (ps : List Packet) × (s3d_load_texture false object tex x y w h image ≡ some ps)
      × Covers object tex x w y image (read_all ps)
unfolding s3d_load_texture
load_texture-Covers object tex x y w h image ho ht hx w0 w1 hy hh len =
    let same : y + 0 ≡ y = omega arith in
    let no_rows : 0 * w * 4 ≡ 0 = omega arith in
    let step_pos : 0 < linestep w = linestep_pos w w0 w1 in
    let n : (linestep w == 0) ≡ false = ground arith in
    let all =
      covers object tex x y w h (linestep w) image ho ht hx (w0, omega arith) hy hh
        (step_pos, step_fits w) len h 0 (omega arith) in
    (
      bands object tex x y w h (linestep w) image h 0,
      rw n refl,
      subst
          (λ (r : ℕ × ℕ).
            Covers object tex x w r.0 (drop r.1 image)
              (read_all (bands object tex x y w h (linestep w) image h 0)))
          (ap₂ (λ u v. (u, v)) same no_rows) all,
    )
