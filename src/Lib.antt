-- ===== src/Lib.antt =====
-- s3d: a 3D display server, and the library through which its clients reach it.
--
-- A client program links libs3d. Its calls (libs3d/proto_out.c) turn their arguments into packets: a
-- command byte, a length of 16 bits, and numbers in network byte order (libs3d/endian.c). A packet
-- goes to the server over a socket, or through a ring of bytes in a shared memory segment, which both
-- sides read and write (libs3d/shm_ringbuf.c and server/shm_ringbuf.c). The server takes a packet
-- apart (server/proto.c, prot_com_in) and calls the operation of server/object.c that it stands for,
-- which changes the table of objects of that client.
--
-- Which file models what:
--
-- - Ringbuf: struct buf_t of server/global.h. Ringbuf/Client is libs3d/shm_ringbuf.c, in the unsigned
--   arithmetic of 32 bits that it uses, Ringbuf/Server is server/shm_ringbuf.c. Ringbuf/Spec is the
--   FIFO that a ring is to be, Ringbuf/Write and Ringbuf/Read are the lemmas on the server's code,
--   and Ringbuf/Channel relates both sides to the FIFO.
-- - Wire: server/endian.c and libs3d/endian.c, with the byte order written out. A float is its bit
--   pattern.
-- - Client: the calls of libs3d/proto_out.c, under their own names, as the packets that they send.
--   Client/Fragments has the calls that cut an array into fragments, Client/Whole the lemmas on them;
--   Client/Loads is about the positions in those that load;
--   Client/Picture is s3d_load_texture. Client/Queue is libs3d/object_queue.c, the ids that wait for
--   s3d_new_object; Client/Handout has its theorem.
-- - Proto: prot_com_in of server/proto.c as a function from a packet to the call that it makes, a
--   Command. Proto/Calls names the calls of a client, Proto/RoundTrip, Proto/Many and
--   Proto/Pictures send and read; Proto/Packets and Proto/Bands have their lemmas.
-- - Object: the structures of server/global.h and the operations of server/object.c on the data of one
--   object, under their own names: Object/Push, Object/Pep, Object/Load, Object/Del, Object/Texture,
--   Object/Textures and Object/Flags. Object/Request collects them, but for obj_push_tex, as serve, the
--   calls of prot_com_in. Object/Effects, Object/Counts, Object/Bounds, Object/Drawable, Object/Memory,
--   Object/Served and Object/Arrays have the theorems, the other files their lemmas. Where a counter
--   exceeds its array or a memcpy leaves its buffer, the code reads and writes what lies there; the
--   theorems on these operations are about tables and requests for which that does not happen, or say
--   that it does.
--   Object/Links is the tree of objects: link_delete, link_insert, and in its child Link obj_link and
--   obj_unlink, in Life obj_new and obj_free. Links/View is what is read of an object there,
--   Links/Chains, Links/Delete and Links/Insert the writes to it, Links/Rooted, Links/Listed and
--   Links/Forest the ways up and back, Links/Relink, Links/Calls, Links/New, Links/Children and
--   Links/Freed the theorems on one call, Links/Reach the one on many. Object/Clones: obj_clone_change; Object/Clones/Chains has
--   its theorem, Object/Clones/Flags the lemmas.
-- - Tcp: the packets of a connection over a socket: tcp_readn and tcp_writen of server/tcp.c and
--   libs3d/tcp.c (Tcp/Readn, Tcp/Writen), tcp_prot_com_in and _s3d_tcp_net_receive (Tcp/Packets, with
--   the lemmas on the buffer in Tcp/Buffer), and a whole connection (Tcp/Connection). read and write of
--   the operating system are the records Reader and Writer.
-- - Events: libs3d/event.c and libs3d/callback.c. A callback is the list of the events that it pushes.
--   Events/Stack is about one call, Events/Drain about s3d_process_stack. Events/Incoming is net_prot_in
--   of libs3d/proto_in.c, Events/Sent what server/event.c sends to it, with the theorem on both.
-- - Hash: libs3d/hash.c under its own names, without the prefix _s3d_. The callbacks are an argument, and
--   Hash/Buckets says what a program must see to when it writes them. Hash/Lookup, Hash/Counts and
--   Hash/Resize have the theorems, Hash/AllData and Hash/Buckets their lemmas.
-- - Server: server/process.c, the list of processes of the server, with n_remove of server/network.c and
--   what server/mcp.c does when a program comes or goes. Server/Invariant says what a well-formed list
--   is, Server/Lists, Server/Tags, Server/Untagged and Server/Frees are the lemmas, on entries, on the
--   objects of the mcp that stand for programs and on the loops that free objects; Server/Removed,
--   Server/Moves, Server/Kept and Server/Deleted are about the deletion of a process, Server/Joined and
--   Server/Registered about the way in.
-- - SharedTex: libs3d/texture.c, the textures that a client shares with the server, in a table of Hash.
--   SharedTex/Keys is about the callbacks of that table, SharedTex/Handle about _s3d_handle_texshm, and
--   SharedTex/Copies about _s3d_load_texture_shm.
-- - Animation: libs3dw/animate.c, the stack of the widgets that move. Animation/Rounds is about
--   s3dw_ani_mate, with Animation/Removal for s3dw_ani_del, and Animation/Stack about s3dw_ani_add. The
--   fuel of ani_round is the number of widgets on the stack, since a round either takes one off it or
--   goes on to the next.
-- - Widgets: s3dw_widget_remove of libs3dw/widget.c. Widgets/Focus is about the children and the focus of
--   the parent, Widgets/Off about these and the stack of Animation. The fuel of the loop is the number
--   of the children, since every round goes on to the next index.
-- - Base: lists, Boolean tests and conditionals that all of these share.
--
-- How state corresponds: a table of objects is a list with none for a NULL entry, whose length is
-- n_obj. An array of an object is a list, beside the counter that the code keeps for it, so that the
-- two can differ. An int32_t of a packet is its bit pattern, and a negative one is a number from 2^31
-- on. realloc is asked for memory by a Boolean argument of the operations that call it. The memory
-- that obj_push_poly leaves unset is an argument too. A float is of a type with the operations that
-- the code uses, Floats.
--
-- Loops run over the number of rounds that the code computes, with a few exceptions. The search
-- for a power of two in obj_push_tex gets thirteen rounds, which reach 2^13; its limit is 2^12.
-- The loop of s3d_load_texture gets as many rounds as there are lines, each of which it makes at
-- least one of. The loop of _queue_want_object gets its number of passes as an argument, for
-- TIMEOUT + 1. Besides, the search of obj_link for a circle and the loop of obj_free over the
-- children run on fuel: for the former the number of the objects on the way up is enough, for the
-- latter the length of the table and one more. tcp_readn and tcp_writen run as many rounds as
-- there are bytes to move, of which each moves one. The fuel of obj_free in p_del is written into
-- the model, one more than the entries of the table. The fuel of s3d_process_stack is the work
-- that the waiting events mean, and one more.
--
-- What is not modelled: everything that goes to OpenGL, SDL or the log; the vertices of an object,
-- of which the operations also keep the radius, and its place, for which prot_com_in is modelled
-- up to the call; obj_pos_update, which obj_link, obj_unlink and mcp_focus call last, and which
-- writes no link, and obj_size_update and obj_check_biggest_object, which obj_clone_change calls
-- last; callbacks that change the list of callbacks; the iterator of libs3d/hash.c; the opening of
-- sockets, select, and the setting up of the shared memory; the objects that process_sys_init
-- makes, and the change of the mcp in process_protinit; event_obj_info and the other reports on
-- objects; s3dw_ani_needarr and what s3dw_ani_doit sends; the rest of libs3dw and the applications.
pub mod Base
pub mod Ringbuf
pub mod Wire
pub mod Object
pub mod Client
pub mod Proto
pub mod Tcp
pub mod SharedTex
pub mod Hash
pub mod Animation
pub mod Widgets
pub mod Events
pub mod Server
