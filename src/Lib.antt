-- ===== src/Lib.antt =====
-- Stunt, a server for the programming language MOO: a verification library for its core.
--
-- The program keeps a database of objects, each with a location, contents, parents, properties and
-- verbs (db_objects.cc), runs the verbs of these objects on values (structures.h, utils.cc,
-- numbers.cc, list.cc), and gives them built-in functions, which check their arguments and call the
-- operations on values and on the database (list.cc, objects.cc, base64.cc).
--
-- The files, and the code that each is about:
--   Prelude             shared names, tests, lists over native numbers, and the integers
--   Text/Case           utils.cc: cmap, mystrcasecmp, mystrncasecmp, str_hash
--   Text/Verb           utils.cc: verbcasecmp; Spec describes the names of verbs, Accepts and Names
--                       relate the two
--   Text/Binary         utils.cc: raw_bytes_to_binary, raw_bytes_to_clean, binary_to_raw_bytes
--   Text/Pieces         list.cc: strrangeset, substr, strget; Text/Ranged is about strrangeset
--   Text/Search         utils.cc: strindex, strrindex, stream_add_strsub, strtr; list.cc: the built-in
--                       functions around them
--   Text/Substitute     list.cc: invalid_pair, check_subs_list, bf_substitute
--   Text/Strtol         the function strtol of the C library, which the code calls on numbers; Codes
--                       writes byte strings
--   Base64              base64.cc: bf_encode_base64, bf_decode_base64 and their tables
--   Int32               structures.h: int32 with its wrap-around
--   Value               structures.h: Var, error; utils.cc: is_true, equality, compare; below
--                       Value/Equality, Folded is about strings, Decided about values
--   Number              numbers.cc: compare_numbers, SIMPLE_BINARY, do_modulus, do_divide, do_power
--   Lists               list.cc, collection.cc: the operations on lists; Builtins has the built-in
--                       functions around them; Sets and Values count the elements, Ranges and
--                       Positions are about places
--   Database/Store      db_private.h, db_objects.cc: the table of objects and db_create_object
--   Database/Location   db_objects.cc: db_object_location, db_change_location
--   Database/Move       objects.cc: controls, do_move
--   Database/Users      db_objects.cc: the flags and the list all_users
--   Database/Parents    db_objects.cc: check_for_duplicates
--   Command/Words       parse_cmd.cc: parse_into_words, build_string
--   Command/Preposition db_verbs.cc: the prepositions, db_find_prep, db_match_prep, db_unparse_prep
--   Command/Objects     match.cc: match_proc, match_contents, match_object
--   Command/Parsed      parse_cmd.cc: parse_into_wordlist, parse_command
--   Timers              timers.cc: the timers and the alarms of the kernel; Order is about the list,
--                       Queue and Reached about every sequence of calls, View about the table that
--                       the timers are
--   Dbio                db_io.cc: Lines has the numbers and strings of the file, Vars the values
--   Maps                map.cc: rbsingle, rbdouble, rbinsert, rbfind; Shape and Rotations have the rules
--                       of the trees, Balanced the descent, Order and Splits the items in order, and
--                       Inserted and Found what an insertion does; Walk has the traversal (rbtrav,
--                       rbstart, rbmove, mapforeach), Depth the length of its path
--   Compiler            code_gen.cc, ast.h, opcode.h: Syntax has the parsed program, Opcode the opcodes,
--                       State and Emit the state of the generator and what emits into it, Pieces and
--                       Generate generate_expr and generate_stmt, Assemble the layout of stmt_to_code;
--                       Scoped says what the parser makes sure of, Balance is about the stack, Counts,
--                       Counted, Layout and Vectors about references, sizes and labels
--   Interpreter         execute.cc: Operators, Machine and Step have the opcodes of run; Eval says what
--                       expressions mean, and Correct relates the two
-- The Examples of a part apply its theorems to concrete data.
--
-- How the code is read. A string is the list of its bytes without the NUL; a list is the sequence of
-- its elements without the length at index 0. An int is an integer that each operation wraps to 32
-- bits in two's complement. A double is the pattern of its bits; arithmetic on doubles and the
-- functions pow and strcmp of the C library are parameters. The table of objects is a list with empty
-- places, and the state of the database is passed along; a NULL pointer that is dereferenced, a panic
-- and a read outside a string are the value none. Reference counts matter where the code looks at
-- them: a list operation takes the count of its list as an argument. The interpreter's call_verb is a
-- parameter of do_move, which is one function of the entry point, as in the code.
--
-- Fuel. The outer loop of verbcasecmp gets one round more than the verb has characters, since each
-- round takes one away. The loop of do_power gets 32 rounds, since an exponent below 2 ^ 31 is 0 after
-- 31 halvings. parse_into_words gets one round more than the line has characters, and
-- dbio_read_string one more than the file has. The size of a table is doubled at most as often as the
-- number of objects says. The loop of do_move, the loop of stream_add_strsub and dbio_read_var take
-- their fuel as an argument: a depth of nesting, the length of the source, and the depth of the value
-- that is read, are enough.
--
-- The pointers of rbinsert. The place of the search is the current node with the nodes above it. After
-- a rotation the code's helper pointers are not right above the current node until the search has gone
-- down one link or two, which the model counts: a rotation at such a time is the value none.
-- rbinsert takes twice the height of the tree as its fuel, since a double rotation makes the way down
-- one node longer.
--
-- The compiler and the interpreter. The fixups lie within the emitted bytes, each at its place, and a
-- label is named by that place instead of its index in the array of fixups. Opcodes are data, which
-- the layout turns into bytes. A panic of the generator sets a flag, and generate_code then answers
-- none. The interpreter runs the code before it is laid out, so that a label is a place among the
-- cells; ticks are not counted, and a raised error ends the frame.
--
-- Not modelled: the pass of the code generator that marks last uses of variables, the other opcodes and
-- the unwinding of errors, memory management, the bound on the size of a stream except in Base64, the
-- removal of map items and the built-in functions on maps, properties and verbs of objects, quotas,
-- tasks, the parser and the decompiler, the order of the parts of a database file and the programs in
-- it, the network, and the vendored libraries. The aliases of an object are a parameter of the matching
-- of names; what the file says of maps and objects without a number goes through a record of the
-- operations of other parts; strtol, fgets and printf are those of the C library. A range of a list or
-- of a string that reaches past the end is cut off there, where the code would read outside. The tests
-- of equality and listequal for one pointer are left out: without them a list that holds a NaN differs
-- from itself. Eval says nothing of `in`, `^`, the bit operators, `~`, catch expressions, lists, maps,
-- indices, properties and calls, and the theorems about it leave out literals of floats, since 0.0 and
-- -0.0 share the place of one literal.
pub mod Prelude
pub mod Text
pub mod Base64
pub mod Int32
pub mod Value
pub mod Number
pub mod Lists
pub mod Database
pub mod Command
pub mod Timers
pub mod Dbio
pub mod Maps
pub mod Compiler
pub mod Interpreter
