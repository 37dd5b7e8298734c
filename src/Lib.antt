-- ===== src/Lib.antt =====
-- mv_git keeps the records of a MultiValue account in git. One engine (src/mvxgit.c) is compiled
-- for every MultiValue system; a background process (src/gitd.c) runs it for sessions that cannot
-- load it, over a pair of pipes; the drivers reach an account through sessions of their own
-- (src/mvsession.c) and ask a connection (src/mvconn.c) whether it is an open, portable one.
--
-- The modules and the code that they model:
--   Agent      the reply that BP/GIT.AGENT writes to a session of src/mvsession.c
--   Base       the library's names, tests on numbers, lists
--   Bytes      C strings and buffers as lists of bytes; Bytes/Split cuts and joins them
--   Build      the macros that tell the binaries apart, and the names that hang on them
--   Record     xlate, attr_of, rec_set_attr, dict_item_swap, open_dict_project, and the dictionary
--              part of materialize_file without the rewriting of an I item's expression
--              (src/mvxgit.c), which Virtual models
--   Furniture  mv_account_furniture, mv_voc_class, and the filters of a wholesale add
--   Paths      the prefix of an account, record_path, unprefix, the names of the master file and of
--              generated items, path_storable (src/mvxgit.c)
--   Control    the %FILE% control: control_open, control_type, control_halves, sticky_control
--   Wire       the fields of src/gitproto.h, the numbers and the hexadecimal codecs of both ends
--   Session    the frames that call_raw writes and reads (src/mvsession.c)
--   Gitd       serve_session and its table of operations (src/gitd.c)
--   Exchange   frames in gitd's pipe, and the agent's replies as call_raw reads them. The peer of
--              mvsession.c is BP/GIT.AGENT, the client of gitd.c is GIT.RPC in BASIC, and all of them
--              use the frames of gitproto.h
--   Pool       mvs_open, mvs_call, reconnect and remember_open (src/mvsession.c)
--   Conn       src/mvconn.c
--   Descriptor desc_parse and the descriptors that are written (src/mvxgit.c)
--   Batch      the batched index (src/mvxgit.c) and op_flush, op_stage, op_stageblob (src/gitd.c)
--   Virtual    trans_split, ispec_expand, ispec_to_udt, ispec_to_open and open_dict_ispec: the
--              expressions of virtual fields, over the dictionaries that git has (src/mvxgit.c)
--   Index      live_listed, backend_has_file, file_is_live, tracked_file_gone, GITINDEXIDS,
--              GITPRUNE and the deletions of GITSTATUS over the list of the index's entries
--              (src/mvxgit.c); Index/Remove is about GITPRUNE's loop over the shrinking index
--   Disk       addall_skip, load_ignores and ignored (src/mvxgit.c)
--   Stock      stock_load, stock_ids, is_stock_record and stock_build_jbase (src/mvxgit.c)
--   Staging    a record in the loops of GITADD and GITSTATUS (src/mvxgit.c), on Record, Virtual,
--              Furniture, Paths and Control
--   Server     resolve_dir, do_connect, server_loop, retire_server and ensure_server (src/gitd.c)
--   Ops        op_ping to op_pullref (src/gitd.c), which Gitd dispatches, over Batch and Furniture
--   Unidata    collect_index_changes with index_set_differs, manifest_set, and the tests on arguments
--              (src/udt-git.c)
--   Universe   flavour_index and exclude_new (src/uv-git.c)
--   Layer      mv_filelist and mv_fileclass (src/udtgit_rt.c), which Index reads
--   Tests      concrete inputs
--
-- A buffer is a list of natural numbers below 256, and a C string the bytes in front of its NUL.
-- Sizes that the code cuts at are kept: attr_of and record_path clip, the arrays of rec_set_attr
-- and dict_item_swap hold 40 and 32 attributes. strtol stops at LONG_MAX. Failing allocations are
-- not modelled, nor is a modulo in a control that overflows a long, nor an index that GITPRUNE
-- cannot write; the end of a batch takes what its write leaves on the disk as a parameter. A pipe
-- is the list of the bytes that its writer sends before it goes, so that poll, its deadline and a
-- client that has gone are the end of that list.
--
-- Fuel: serve takes the number of bytes in the pipe, since a round takes a header off it;
-- furniture the length of the name, since a call is on a shorter one; storable_loop the length of
-- the path; show_digits the number itself. Each has a lemma that more changes nothing or is built
-- on one. The eight links of an expanded chain, the hundred waits for a server and its 300 idle
-- seconds are the code's own. A turn of the server's loop is given what poll, read, waitpid, time
-- and fork answer in it; a start of a server, the machine as functions. An add and a status are
-- given the account as a record: its files, its ignore rules, git's copies, the dictionaries of
-- HEAD where there is a commit, and those that are read off an index.
--
-- Not modelled: libgit2 and what is built of its calls over trees (diff, merge, checkout), the loops
-- over the files of an account and the plain paths of a status, the reading of the master
-- file's copy that UniData starts its baseline from, the watch of an idle session, the record access of
-- the platforms, the processes and pipes of a session, which are the Platform that Pool takes, the
-- engine's own operations, which are the Engine that Ops takes, the commands of the drivers and
-- the verbs in BASIC.
mod Base
pub mod Agent
pub mod Build
pub mod Bytes
pub mod Record
pub mod Wire
pub mod Session
pub mod Gitd
pub mod Exchange
pub mod Furniture
pub mod Paths
pub mod Control
pub mod Conn
pub mod Pool
pub mod Descriptor
pub mod Batch
pub mod Virtual
pub mod Unidata
pub mod Universe
pub mod Layer
pub mod Index
pub mod Disk
pub mod Stock
pub mod Server
pub mod Ops
pub mod Staging
pub mod Tests
