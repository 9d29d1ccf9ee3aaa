-- ===== src/Syscall/Endpoints.antt =====
-- src/kernel/syscall/ns_endpoint_cap.cpp.
use caprese.Common.{ℕ, ◌+◌, Bool, true, false, not, if◌then◌else◌}
use caprese.Kernel.{Cmd, pure, ◌>>=◌, get_slot, endpoint_member}
use caprese.Ipc.{
  MessageLayout, Outcome, ipc_send_short, ipc_send_long, ipc_receive, ipc_reply, ipc_call,
}
use caprese.Syscall.Lookup.{
  Answer, sysret_s_ok, errno_to_sysret, or_errno, lookup_endpoint_cap, found_or_errno,
}

-- The endpoint that `args[0]` names.
unfoldable pub with_endpoint : (ℕ → ℕ) → (ℕ → Cmd Answer) → Cmd Answer
with_endpoint arg go =
    found_or_errno (lookup_endpoint_cap arg)
      λ slot. do s ← get_slot slot; c ← endpoint_member s.cap; go c.endpoint

-- A call that returns later returns true. The answer of one that sleeps is that of `after_woken`.
abbrev after_call : Outcome → Cmd Answer
after_call (Outcome.returns b) = or_errno b
after_call (Outcome.returns_later b) = pure (Answer.answered_later (sysret_s_ok 0))
after_call Outcome.sleeps = pure Answer.asleep

unfoldable pub after_woken : Bool → Cmd Answer
after_woken b = or_errno b

-- The three calls that block or not; `nb` calls do not.
unfoldable pub send_short_call : MessageLayout → ℕ → Bool → (ℕ → ℕ) → Cmd Answer
send_short_call layout fuel blocking arg =
    with_endpoint arg λ endpoint. do
      r ← ipc_send_short layout fuel blocking endpoint (λ i. arg (i + 1))
      after_call r

unfoldable pub sys_endpoint_cap_send_short : MessageLayout → ℕ → (ℕ → ℕ) → Cmd Answer
unfolding send_short_call
sys_endpoint_cap_send_short layout fuel = send_short_call layout fuel true

unfoldable pub sys_endpoint_cap_nb_send_short : MessageLayout → ℕ → (ℕ → ℕ) → Cmd Answer
unfolding send_short_call
sys_endpoint_cap_nb_send_short layout fuel = send_short_call layout fuel false

unfoldable pub send_long_call : MessageLayout → ℕ → Bool → (ℕ → ℕ) → Cmd Answer
send_long_call layout fuel blocking arg =
    with_endpoint arg
      λ endpoint. do r ← ipc_send_long layout fuel blocking endpoint (arg 1); after_call r

unfoldable pub sys_endpoint_cap_send_long : MessageLayout → ℕ → (ℕ → ℕ) → Cmd Answer
unfolding send_long_call
sys_endpoint_cap_send_long layout fuel = send_long_call layout fuel true

unfoldable pub sys_endpoint_cap_nb_send_long : MessageLayout → ℕ → (ℕ → ℕ) → Cmd Answer
unfolding send_long_call
sys_endpoint_cap_nb_send_long layout fuel = send_long_call layout fuel false

unfoldable pub receive_call : MessageLayout → ℕ → Bool → (ℕ → ℕ) → Cmd Answer
receive_call layout fuel blocking arg =
    with_endpoint arg
      λ endpoint. do r ← ipc_receive layout fuel blocking endpoint (arg 1); after_call r

unfoldable pub sys_endpoint_cap_receive : MessageLayout → ℕ → (ℕ → ℕ) → Cmd Answer
unfolding receive_call
sys_endpoint_cap_receive layout fuel = receive_call layout fuel true

unfoldable pub sys_endpoint_cap_nb_receive : MessageLayout → ℕ → (ℕ → ℕ) → Cmd Answer
unfolding receive_call
sys_endpoint_cap_nb_receive layout fuel = receive_call layout fuel false

unfoldable pub sys_endpoint_cap_reply : MessageLayout → ℕ → (ℕ → ℕ) → Cmd Answer
sys_endpoint_cap_reply layout fuel arg =
    with_endpoint arg λ endpoint. do b ← ipc_reply layout fuel endpoint (arg 1); or_errno b

unfoldable pub sys_endpoint_cap_call : MessageLayout → ℕ → (ℕ → ℕ) → Cmd Answer
sys_endpoint_cap_call layout fuel arg =
    with_endpoint arg λ endpoint. do r ← ipc_call layout fuel endpoint (arg 1); after_call r

unfoldable pub sys_endpoint_cap_reply_and_receive : MessageLayout → ℕ → (ℕ → ℕ) → Cmd Answer
sys_endpoint_cap_reply_and_receive layout fuel arg = with_endpoint arg λ endpoint. do
  b ← ipc_reply layout fuel endpoint (arg 1)
  if not b
      then errno_to_sysret
      else do r ← ipc_receive layout fuel true endpoint (arg 1); after_call r
