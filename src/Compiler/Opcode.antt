-- ===== src/Compiler/Opcode.antt =====
-- opcode.h.
use stunt.Prelude.{ℕ, ◌+◌, Bool, ◌&&◌, not}
use stunt.Prelude.Int.{ℤ, pos, negsuc, ltb_ℤ, ◌+ℤ◌, pos_part}

pub data ExtendedOpcode : Type 0 where
  eop_rangeset eop_first eop_last eop_push_label eop_end_catch eop_end_except : ExtendedOpcode
  eop_end_finally eop_continue eop_catch eop_try_except eop_try_finally eop_while_id :
      ExtendedOpcode
  eop_exit eop_exit_id eop_scatter eop_exp eop_for_list_1 eop_for_list_2 : ExtendedOpcode
  eop_bitor eop_bitand eop_bitxor eop_bitshl eop_bitshr eop_complement : ExtendedOpcode

-- The opcodes with an operand in the same byte have it as an argument; `optim_num n` is the
-- opcode of the small integer `n`.
pub data Opcode : Type 0 where
  op_if op_while op_eif op_fork op_fork_with_id op_for_range : Opcode
  op_indexset op_push_get_prop op_get_prop op_call_verb op_put_prop op_bi_func_call : Opcode
  op_if_ques op_ref op_range_ref op_make_singleton_list op_check_list_for_splice : Opcode
  op_mult op_div op_mod op_add op_minus op_eq op_ne op_lt op_le op_gt op_ge op_in : Opcode
  op_and op_or op_unary_minus op_not : Opcode
  op_put op_push : ℕ → Opcode
  op_g_put op_g_push op_imm op_make_empty_list op_list_add_tail op_list_append : Opcode
  op_push_ref op_put_temp op_push_temp op_jump op_return op_return0 op_done op_pop : Opcode
  op_extended op_map_create op_map_insert : Opcode
  optim_num : ℤ → Opcode

abbrev pub num_ready_vars : ℕ
num_ready_vars = 32

-- `OPTIM_NUM_START` with the opcodes of the build, `BYTECODE_REDUCE_REF` included.
abbrev pub optim_num_start : ℕ
optim_num_start = 148

abbrev pub optim_num_low : ℤ
optim_num_low = negsuc 9

-- `255 - 148 - 10`
abbrev pub optim_num_hi : ℤ
optim_num_hi = pos 97

unfoldable pub in_optim_num_range : ℤ → Bool
in_optim_num_range n = not (ltb_ℤ n optim_num_low) && not (ltb_ℤ optim_num_hi n)

unfoldable pub opcode_byte : Opcode → ℕ
opcode_byte op_if = 0
opcode_byte op_while = 1
opcode_byte op_eif = 2
opcode_byte op_fork = 3
opcode_byte op_fork_with_id = 4
opcode_byte op_for_range = 6
opcode_byte op_indexset = 7
opcode_byte op_push_get_prop = 8
opcode_byte op_get_prop = 9
opcode_byte op_call_verb = 10
opcode_byte op_put_prop = 11
opcode_byte op_bi_func_call = 12
opcode_byte op_if_ques = 13
opcode_byte op_ref = 14
opcode_byte op_range_ref = 15
opcode_byte op_make_singleton_list = 16
opcode_byte op_check_list_for_splice = 17
opcode_byte op_mult = 18
opcode_byte op_div = 19
opcode_byte op_mod = 20
opcode_byte op_add = 21
opcode_byte op_minus = 22
opcode_byte op_eq = 23
opcode_byte op_ne = 24
opcode_byte op_lt = 25
opcode_byte op_le = 26
opcode_byte op_gt = 27
opcode_byte op_ge = 28
opcode_byte op_in = 29
opcode_byte op_and = 30
opcode_byte op_or = 31
opcode_byte op_unary_minus = 32
opcode_byte op_not = 33
opcode_byte (op_put n) = 34 + n
opcode_byte op_g_put = 66
opcode_byte (op_push n) = 67 + n
opcode_byte op_g_push = 99
opcode_byte op_imm = 133
opcode_byte op_make_empty_list = 134
opcode_byte op_list_add_tail = 135
opcode_byte op_list_append = 136
opcode_byte op_push_ref = 137
opcode_byte op_put_temp = 138
opcode_byte op_push_temp = 139
opcode_byte op_jump = 140
opcode_byte op_return = 141
opcode_byte op_return0 = 142
opcode_byte op_done = 143
opcode_byte op_pop = 144
opcode_byte op_extended = 145
opcode_byte op_map_create = 146
opcode_byte op_map_insert = 147
opcode_byte (optim_num n) = optim_num_start + pos_part (n +ℤ pos 10)

unfoldable pub extended_byte : ExtendedOpcode → ℕ
extended_byte eop_rangeset = 0
extended_byte eop_first = 2
extended_byte eop_last = 3
extended_byte eop_push_label = 4
extended_byte eop_end_catch = 5
extended_byte eop_end_except = 6
extended_byte eop_end_finally = 7
extended_byte eop_continue = 8
extended_byte eop_catch = 9
extended_byte eop_try_except = 10
extended_byte eop_try_finally = 11
extended_byte eop_while_id = 12
extended_byte eop_exit = 13
extended_byte eop_exit_id = 14
extended_byte eop_scatter = 15
extended_byte eop_exp = 16
extended_byte eop_for_list_1 = 17
extended_byte eop_for_list_2 = 18
extended_byte eop_bitor = 19
extended_byte eop_bitand = 20
extended_byte eop_bitxor = 21
extended_byte eop_bitshl = 22
extended_byte eop_bitshr = 23
extended_byte eop_complement = 24
