-- ===== src/TransactionManager/Instruct.antt =====
-- `add_instruction`: the request that an instruction stands for.
use rep_crec.Base.{true, false, some, ℤ, Result, ok, err, invalid_argument}
use rep_crec.Instruction.{
  Instruction, unknown, begin, begin_ro, read, write, recover, fail, dump, end,
}
use rep_crec.Request.{
  Request, create_request, read_request, write_request, recovery_request, fail_request,
  dump_request, end_request, set_type,
}
use rep_crec.TransactionManager.{TransactionManager, Action, Done, lift, modify}
use rep_crec.TransactionManager

unfoldable pub request_of : Instruction → ℤ → Result Request
unfolding create_request read_request write_request recovery_request fail_request dump_request
    end_request set_type
request_of i timestamp = elim i.type [
  | begin ↦ ok (set_type begin (create_request timestamp i.tran_id false))
  | begin_ro ↦ ok (set_type begin_ro (create_request timestamp i.tran_id true))
  | read ↦ ok (set_type read (read_request timestamp i.tran_id i.var_id))
  | write ↦ ok (set_type write (write_request timestamp i.tran_id i.site_id i.var_id i.var_value))
  | recover ↦ ok (set_type recover (recovery_request timestamp i.site_id))
  | fail ↦ ok (set_type fail (fail_request timestamp i.site_id))
  | dump ↦ ok (set_type dump (dump_request timestamp))
  | end ↦ ok (set_type end (end_request timestamp i.tran_id))
  | unknown ↦ err invalid_argument
]

unfoldable pub add_instruction : Instruction → ℤ → Action Done
unfolding request_of
add_instruction i timestamp =
    TransactionManager.◌>>=◌ (lift (request_of i timestamp))
      λ r. modify λ tm. record tm { request = some r }
