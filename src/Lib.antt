-- ===== src/Lib.antt =====
-- monoblok: a message broker that speaks the text protocol of NATS, in C. A connection's bytes go
-- through the parser (src/proto.c) to the router (src/router.c), which files subscriptions, delivers
-- messages into the output buffers of connections, and caches last values.
--
-- Shared holds the notation, lists, Boolean tests and case lemmas. The parts of the program:
--
--   * Slice (src/slice.c): `mb_slice_eq`, `mb_slice_has_prefix`, `mb_slice_hash`. A slice is the list
--     of its bytes.
--   * Buffer (src/array.c, src/buf.c): `mb_array_reserve` and the operations of `mb_buf`. A buffer is
--     its bytes with its capacity; Buffer/Growth is about the doubling of capacities, Buffer/Laws
--     about what each operation leaves, also where the allocation fails.
--   * Subject: the tokens of a subject, between the dots.
--   * Proto (src/proto.c): Token, Number, Subjects and Parser read the operations of a client
--     (`mb_parse_client_op`); Frame and Info write `MSG`, `INFO`, `PONG` and `-ERR`.
--   * Router (src/router.c, src/router.h): Match is `subject_matches` with the classes by which a
--     filter is filed; Index the open-addressing index of keys, of which the router has three; Lvc
--     the last-value cache; State the records; Subscribe, Remove and Publish the operations
--     `mb_router_subscribe_queue`, `mb_router_unsubscribe`, `mb_router_remove_all_for` and
--     `mb_router_publish_with_reply_and_options`; Evolve what these may do to a connection.
--   * Patchbay (src/patchbay): the rules that react to messages. Floats is what the code uses of
--     `double` and libc, a parameter of the rest; Value the values of the language and their
--     coercions (pb_eval.c); Entry and State what a rule keeps for an operation and a subject, and
--     `state_slot`; Slot how a form works on its entry. Gates (pb_form_state.c), Ring and Windows
--     (pb_form_windows.c), Bars (pb_form_bar.c) and Clocks (pb_form_clocks.c, with the ticks of
--     pb_forms.c) are the forms: `…_step` and `…_update` are what a form does with its entry, `Calls`
--     the forms on their arguments. Rules (pb_program.c) is the index of the rules by the first token
--     of their filters and the loop of `eval_publish_slices`. Arena (pb_arena.c) is the allocator of
--     the evaluator over addresses; the forms ask it through the parameter `scratch`.
--   * Tests: runs on concrete inputs.
--
-- State is passed explicitly: an operation takes a state and returns its answer with the new state.
-- A pointer to a connection is its number in the store of `World`, so two subscriptions of one
-- connection share it. The allocator is a parameter `alloc`, which answers for a byte size; a run in
-- which some allocation fails is a choice of it. Bytes are natural numbers, sizes are natural numbers
-- with their tests against SIZE_MAX written out, and 32- and 64-bit words wrap where the code's do.
--
-- Loops whose end is not plain from a list run on fuel: a probe of an index on the number of its
-- slots, of which one at least is vacant; a match of subjects on two rounds more than the filter has
-- bytes, while a filter has at most one token more than bytes; the printing of a number on the 32
-- bytes of its array; the doubling of a capacity, of a
-- buffer or of a block of the arena, on 64 rounds, since a size has 64 bits. A sweep over
-- subscriptions takes a round for each item, which is passed or taken out; the eviction of a ring takes
-- a round for each element, and the merge of two lists of rules a round for each rule of them.
--
-- Not modelled: the release of memory (`mb_router_free`); src/fs.c, src/main.c, src/server, which are
-- mostly calls of the event loop; src/bridge.c, src/importer.c, src/jetstream.c, src/nats_common.c,
-- around the NATS client; src/snapshot.c; of src/patchbay the evaluation of expressions (`pb_eval`,
-- which is a parameter of the loop over the rules), with the forms that evaluate bodies, the forms of
-- numbers, text and JSON, and the reading of programs. Of the callbacks of a
-- connection the frame functions are functions of the model; of the two others, and of the bridge,
-- only the calls are recorded.
pub mod Shared
pub mod Slice
pub mod Buffer
pub mod Subject
pub mod Proto
pub mod Router
pub mod Tests
pub mod Patchbay
