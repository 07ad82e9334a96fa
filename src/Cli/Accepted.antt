-- ===== src/Cli/Accepted.antt =====
-- The keyword tables and the dispatcher agree.
use text.Mathlib.Text.{◌==◌ as str_eq}
use latentred.Prelude.{
  ℕ, ◌+◌, ◌≡◌, ◌∙◌, ◌⊎◌, refl, sym, subst, Bool, true, List, [], ◌∷◌, ◌++◌, arith, inl, inr,
  if◌then◌else◌,
}
use latentred.Port.{InterfaceState}
use latentred.Cli.Grammar.{
  CommandId, Token, Follows, root_commands, show_commands, cmd_hardware, cmd_flash, cmd_show,
  cmd_zeroize, cmd_reload, cmd_rollback, cmd_commit, cmd_hostname, cmd_ssh, cmd_ip, cmd_no, cmd_ntp,
  cmd_exit, cmd_address, cmd_gateway, cmd_interface, cmd_version, cmd_key, cmd_username,
  ip_commands, ssh_commands, invalid_command,
}
use latentred.Cli.System.{Output, printf, World, System, Session, say, flush, PortRow}
use latentred.Cli.Config.{
  on_commit, on_rollback, checked, on_reload, on_ip_command, on_no_command, on_ntp_server,
  on_ssh_command, set_hostname,
}
use latentred.Cli.Show.{
  on_show_command, show, on_show_flash, on_show_hardware, on_show_interface_status, on_show_version,
  rows_out, all_rows,
}
use latentred.Cli.Dispatch.{on_execute, execute, command}

-- how often "Unrecognized command" stands in what was written
abbrev unrecognized_here : Output → ℕ
unrecognized_here (printf t) = if str_eq t "Unrecognized command\n" then 1 else 0
unrecognized_here _ = 0

pub unrecognized : List Output → ℕ
unrecognized [] = 0
unrecognized (o ∷ os) = unrecognized_here o + unrecognized os

unrecognized-append :
    (xs ys : List Output) → unrecognized (xs ++ ys) ≡ unrecognized xs + unrecognized ys
unfolding unrecognized
unrecognized-append [] ys = omega arith
unrecognized-append (x ∷ xs) ys = omega (arith, unrecognized-append xs ys)

-- The tests that the dispatcher makes on the first two tokens before it complains.
abbrev Known : CommandId → CommandId → Type 0
Known cmd_commit j = Unit
Known cmd_exit j = Unit
Known cmd_flash j = Unit
Known cmd_hostname j = Unit
Known cmd_ip j = (j ≡ cmd_address) ⊎ (j ≡ cmd_gateway)
Known cmd_no j = Unit
Known cmd_ntp j = Unit
Known cmd_reload j = Unit
Known cmd_rollback j = Unit
Known cmd_show j =
    (j ≡ cmd_flash)
    ⊎ (j ≡ cmd_hardware)
    ⊎ (j ≡ cmd_interface)
    ⊎ (j ≡ cmd_ip)
    ⊎ (j ≡ cmd_ntp)
    ⊎ (j ≡ cmd_ssh)
    ⊎ (j ≡ cmd_version)
Known cmd_ssh j = (j ≡ cmd_key) ⊎ (j ≡ cmd_username)
Known cmd_zeroize j = Unit
Known _ j = ⊥

second_show :
    (ts : List Token) → Follows show_commands ts → Known cmd_show (command ts 0).command_id
second_show [] h = absurd h
second_show (t ∷ ts) h = ground arith

second_ip : (ts : List Token) → Follows ip_commands ts → Known cmd_ip (command ts 0).command_id
second_ip [] h = absurd h
second_ip (t ∷ ts) h = ground arith

second_ssh : (ts : List Token) → Follows ssh_commands ts → Known cmd_ssh (command ts 0).command_id
second_ssh [] h = absurd h
second_ssh (t ∷ ts) h = ground arith

from_row :
    (t : Token) (ts : List Token) (id : CommandId)
    → t.command_id ≡ id
    → Known id (command ts 0).command_id
    → Known t.command_id (command ts 0).command_id
from_row t ts id e h = subst (λ i. Known i (command ts 0).command_id) (sym e) h

Follows-Known :
    (ts : List Token)
    → Follows root_commands ts
    → Known (command ts 0).command_id (command ts 1).command_id
Follows-Known [] h = absurd h
Follows-Known (t ∷ ts) (inl (e, h)) = from_row t ts cmd_commit e (tt)
Follows-Known (t ∷ ts) (inr (inl (e, h))) = from_row t ts cmd_exit e (tt)
Follows-Known (t ∷ ts) (inr (inr (inl (e, h)))) = from_row t ts cmd_flash e (tt)
Follows-Known (t ∷ ts) (inr (inr (inr (inl (e, h))))) = from_row t ts cmd_hostname e (tt)
Follows-Known (t ∷ ts) (inr (inr (inr (inr (inl (e, h)))))) =
    from_row t ts cmd_ip e (second_ip ts h)
Follows-Known (t ∷ ts) (inr (inr (inr (inr (inr (inl (e, h))))))) = from_row t ts cmd_no e (tt)
Follows-Known (t ∷ ts) (inr (inr (inr (inr (inr (inr (inl (e, h)))))))) =
    from_row t ts cmd_ntp e (tt)
Follows-Known (t ∷ ts) (inr (inr (inr (inr (inr (inr (inr (inl (e, h))))))))) =
    from_row t ts cmd_reload e (tt)
Follows-Known (t ∷ ts) (inr (inr (inr (inr (inr (inr (inr (inr (inl (e, h)))))))))) =
    from_row t ts cmd_rollback e (tt)
Follows-Known (t ∷ ts) (inr (inr (inr (inr (inr (inr (inr (inr (inr (inl (e, h))))))))))) =
    from_row t ts cmd_show e (second_show ts h)
Follows-Known (t ∷ ts) (inr (inr (inr (inr (inr (inr (inr (inr (inr (inr (inl (e, h)))))))))))) =
    from_row t ts cmd_ssh e (second_ssh ts h)
Follows-Known (t ∷ ts)
      (inr (inr (inr (inr (inr (inr (inr (inr (inr (inr (inr (inl (e, h))))))))))))) =
    from_row t ts cmd_zeroize e (tt)
Follows-Known (t ∷ ts) (inr (inr (inr (inr (inr (inr (inr (inr (inr (inr (inr (inr h)))))))))))) =
    absurd h

unrecognized-say :
    {W : Type 0} (o : Output) (s : System W)
    → unrecognized (say o s).out ≡ unrecognized s.out + unrecognized_here o
unfolding unrecognized
unrecognized-say o s = omega (arith, unrecognized-append s.out (o ∷ []))

module _ {W : Type 0} (w : World W) (ports : ℕ → ℕ → InterfaceState)
    (line_card : System W → System W) where
  unrecognized-checked :
      (f : W → Bool × W) (s : System W) → unrecognized (checked w f s).out ≡ unrecognized s.out
  unfolding checked
  unrecognized-checked f s =
      ground
        (arith, unrecognized-say (printf "KVS write error\n") (record s { world = (f s.world).1 }))

  unrecognized-on_commit : (s : System W) → unrecognized (on_commit w s).out ≡ unrecognized s.out
  unfolding on_commit
  unrecognized-on_commit s = grind (arith, unrecognized-checked)

  unrecognized-ip :
      (id : CommandId) (t : Token) (s : System W)
      → Known cmd_ip id
      → unrecognized (on_ip_command w id t s).out ≡ unrecognized s.out
  unfolding on_ip_command
  unrecognized-ip id t s h = grind (arith, unrecognized-say)

  unrecognized-rows_out : (rs : List PortRow) → unrecognized (rows_out rs) ≡ 0
  unfolding unrecognized
  unrecognized-rows_out [] = refl
  unrecognized-rows_out (r ∷ rs) = omega (arith, unrecognized-rows_out rs)

  unrecognized-status :
      (s : System W) → unrecognized (on_show_interface_status ports s).out ≡ unrecognized s.out
  unfolding on_show_interface_status unrecognized
  unrecognized-status s =
      unrecognized-append s.out _ ∙ omega (arith, unrecognized-rows_out (all_rows ports 0 2))

  unrecognized-version : (s : System W) → unrecognized (on_show_version s).out ≡ unrecognized s.out
  unfolding on_show_version unrecognized
  unrecognized-version s = unrecognized-append s.out _ ∙ omega arith

  module _ (plain : (s : System W) → unrecognized (line_card s).out ≡ unrecognized s.out) where
    unrecognized-hardware :
        (s : System W) → unrecognized (on_show_hardware line_card s).out ≡ unrecognized s.out
    unfolding on_show_hardware unrecognized
    unrecognized-hardware s = plain _ ∙ unrecognized-append s.out _ ∙ omega arith

    unrecognized-show :
        (id : CommandId) (m : ℕ → Token) (s : System W)
        → Known cmd_show id
        → unrecognized (show ports line_card id m s).out ≡ unrecognized s.out
    unfolding on_show_flash
    unrecognized-show cmd_hardware m s h = unrecognized-hardware s
    unrecognized-show cmd_version m s h = unrecognized-version s
    unrecognized-show cmd_interface m s h = ground (arith, unrecognized-status s)
    unrecognized-show cmd_flash m s h = grind (arith, unrecognized-say)
    unrecognized-show cmd_ip m s h = grind (arith, unrecognized-say)
    unrecognized-show cmd_ntp m s h = grind (arith, unrecognized-say)
    unrecognized-show cmd_ssh m s h = grind (arith, unrecognized-say)
    unrecognized-show _ m s h = ground arith

    unrecognized-execute :
        (id : CommandId) (m : ℕ → Token) (c : Session) (s : System W)
        → Known id (m 1).command_id
        → unrecognized (execute w ports line_card id m c s).out ≡ unrecognized s.out
    unfolding on_no_command on_ntp_server on_ssh_command set_hostname on_rollback on_reload
        on_show_command
    unrecognized-execute cmd_commit m c s h = unrecognized-on_commit s
    unrecognized-execute cmd_ip m c s h = unrecognized-ip (m 1).command_id (m 2) s h
    unrecognized-execute cmd_show m c s h = unrecognized-show (m 1).command_id m s h
    unrecognized-execute cmd_exit m c s h = grind (arith, unrecognized-say)
    unrecognized-execute cmd_flash m c s h = grind (arith, unrecognized-say)
    unrecognized-execute cmd_no m c s h = grind (arith, unrecognized-say)
    unrecognized-execute cmd_ntp m c s h = grind (arith, unrecognized-say)
    unrecognized-execute cmd_reload m c s h = grind (arith, unrecognized-say)
    unrecognized-execute cmd_ssh m c s h = grind (arith, unrecognized-say)
    unrecognized-execute cmd_zeroize m c s h = grind (arith, unrecognized-say)
    unrecognized-execute _ m c s h = ground arith

    -- Every command that the keyword tables describe is known to the dispatcher: executing it never
    -- answers "Unrecognized command", provided that printing the line card does not either.
    pub Follows-recognized :
        (ts : List Token) (c : Session) (s : System W)
        → Follows root_commands ts
        → unrecognized (on_execute w ports line_card (command ts) c s).out ≡ unrecognized s.out
    unfolding on_execute
    Follows-recognized ts c s h = grind (
      arith,
      unrecognized-say,
      unrecognized-execute (command ts 0).command_id (command ts) c s (Follows-Known ts h),
    )

  -- A line whose first token is no command changes nothing: the answer is one line and a flush.
  pub on_execute_invalid :
      (m : ℕ → Token) (c : Session) (s : System W)
      → c.root_mode ≡ true
      → (m 0).command_id ≡ invalid_command
      → on_execute w ports line_card m c s
        ≡ record s { out = (s.out ++ printf "Unrecognized command\n" ∷ []) ++ flush ∷ [] }
  unfolding on_execute
  on_execute_invalid m c s root bad = ground arith
