-- ===== src/Rails/Sim.antt =====
-- adapters/rails/sim/sim.go: the simulated rail, and the directory of aliases in memory. The lock
-- makes each call one step. A latency with a cancelled context is `cancelled`.
pub mod Idempotent
use Prim.Native.String.{◌++◌}
use aerarium_agentic_banking.Common.{
  ℕ, suc, ◌-◌, ◌+◌, String, ◌≡◌, Bool, true, false, Option, none, some, List, [], ◌∷◌, ltb, length,
  if◌then◌else◌, Result, ok, err, Dict, lookup, insert,
}
use aerarium_agentic_banking.Common.Int.{ℤ}
use aerarium_agentic_banking.Rails.Port.{
  AccountResolver, RailErrorKind, RailError, unknown_alias, rejected, unavailable, alias_not_ours,
  other_error, AliasTarget, SendRequest, SendReceipt, InboundCredit, Rail,
}

-- What stands outside the program: whether the context ends before the latency has passed, the
-- identifiers that are generated, one for each call, and the time.
pub record Outside : Type 0 where
  pub cancelled : Bool
  pub new_id : ℕ → String
  pub now : ℕ

pub record SimRail : Type 0 where
  pub aliases : Dict AliasTarget
  pub sent : Dict SendReceipt
  pub latency : ℕ
  pub fail_next : ℕ
  pub reject_next : ℕ
  pub sent_call_log : List SendRequest

unfoldable pub new : SimRail
new = record {
  aliases = [];
  sent = [];
  latency = 0;
  fail_next = 0;
  reject_next = 0;
  sent_call_log = [];
}

unfoldable pub register_alias : String → String → String → SimRail → SimRail
register_alias alias holder institution r = record r {
  aliases =
      insert alias (record { alias = alias; holder_name = holder; institution = institution })
        r.aliases;
}

unfoldable pub set_latency : ℕ → SimRail → SimRail
set_latency d r = record r { latency = d }

-- The two counters, as the code does, are set and not added to.
unfoldable pub fail_next_sends : ℕ → SimRail → SimRail
fail_next_sends n r = record r { fail_next = n }

unfoldable pub reject_next_sends : ℕ → SimRail → SimRail
reject_next_sends n r = record r { reject_next = n }

unfoldable pub send_count : SimRail → ℕ
send_count r = length r.sent_call_log

abbrev wrapped : RailErrorKind → String → RailError
wrapped kind text = record { kind = kind; text = text }

-- Nothing to wait for without a latency; otherwise the context may end first.
unfoldable pub wait : Outside → SimRail → Option RailError
wait o r =
    if ltb 0 r.latency
    then (if o.cancelled then some (wrapped other_error "context canceled") else none)
    else none

resolve_known : String → Option AliasTarget → SimRail → Result RailError AliasTarget × SimRail
resolve_known alias (some target) r = (ok target, r)
resolve_known alias none r = (err (wrapped unknown_alias ("alias desconocido: " ++ alias)), r)

resolve_waited : String → Option RailError → SimRail → Result RailError AliasTarget × SimRail
resolve_waited alias (some e) r = (err e, r)
resolve_waited alias none r = resolve_known alias (lookup alias r.aliases) r

unfoldable pub resolve_alias : Outside → String → SimRail → Result RailError AliasTarget × SimRail
unfolding wait resolve_waited resolve_known
resolve_alias o alias r = resolve_waited alias (wait o r) r

-- The order counts: a receipt given before comes before the alias, the failures and the rejections.
send_new : Outside → SendRequest → SimRail → Result RailError SendReceipt × SimRail
send_new o req r =
    if ltb 0 r.fail_next
    then (
      err (wrapped unavailable "riel no disponible: timeout"),
      record r { fail_next = r.fail_next - 1; sent_call_log = req ∷ r.sent_call_log },
    )
    else if ltb 0 r.reject_next
    then (
      err (
          wrapped rejected
            "operación rechazada por el riel: fondos del destinatario no disponibles"),
      record r { reject_next = r.reject_next - 1; sent_call_log = req ∷ r.sent_call_log },
    )
    else (let receipt : SendReceipt = record {
      rail_transaction_id = "rail-" ++ o.new_id (length r.sent_call_log);
      accepted_at = o.now;
    } in
        (
          ok receipt,
          record r {
            sent = insert req.transfer_id receipt r.sent;
            sent_call_log = req ∷ r.sent_call_log;
          },
        ))

send_to :
    Outside → SendRequest → Option AliasTarget → SimRail → Result RailError SendReceipt × SimRail
send_to o req none r = (err (wrapped unknown_alias ("alias desconocido: " ++ req.alias)), r)
send_to o req (some _) r = send_new o req r

send_once :
    Outside → SendRequest → Option SendReceipt → SimRail → Result RailError SendReceipt × SimRail
send_once o req (some receipt) r = (ok receipt, r)
send_once o req none r = send_to o req (lookup req.alias r.aliases) r

send_waited :
    Outside → SendRequest → Option RailError → SimRail → Result RailError SendReceipt × SimRail
send_waited o req (some e) r = (err e, r)
send_waited o req none r = send_once o req (lookup req.transfer_id r.sent) r

unfoldable pub send : Outside → SendRequest → SimRail → Result RailError SendReceipt × SimRail
unfolding wait send_waited send_once send_to send_new
send o req r = send_waited o req (wait o r) r

-- The simulator as a rail.
abbrev pub sim_rail : String → Outside → Rail
sim_rail name o = record {
  State = SimRail;
  name = name;
  resolve_alias = resolve_alias o;
  send = send o;
}

-- `Shuffle` writes each notification at the mirrored position.
unfoldable pub shuffle_onto : List InboundCredit → List InboundCredit → List InboundCredit
shuffle_onto [] out = out
shuffle_onto (c ∷ credits) out = shuffle_onto credits (c ∷ out)

unfoldable pub shuffle : List InboundCredit → List InboundCredit
unfolding shuffle_onto
shuffle credits = shuffle_onto credits []

unfoldable pub emit_credit : Outside → String → ℤ → String → String → InboundCredit
emit_credit o to_alias amount_micros currency sender = record {
  rail_transaction_id = "rail-" ++ o.new_id 0;
  to_alias = to_alias;
  amount_micros = amount_micros;
  currency = currency;
  sender_name = sender;
  occurred_at = o.now;
}

-- `AliasDirectory`
abbrev pub AliasDirectory : Type 0
AliasDirectory = Dict String

unfoldable pub register : String → String → AliasDirectory → AliasDirectory
register alias account_id d = insert alias account_id d

account_found : String → Option String → Result RailError String
account_found alias (some account_id) = ok account_id
account_found alias none =
    err (wrapped alias_not_ours ("el alias no pertenece a este banco: " ++ alias))

unfoldable pub account_id_for_alias : AliasDirectory → String → Result RailError String
unfolding account_found
account_id_for_alias d alias = account_found alias (lookup alias d)

-- The directory as the port.
abbrev pub sim_directory : AccountResolver
sim_directory = record {
  State = AliasDirectory;
  account_id_for_alias = λ alias d. (account_id_for_alias d alias, d);
}
