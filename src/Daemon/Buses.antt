-- ===== src/Daemon/Buses.antt =====
-- The table of buses under `create` and `delete`, and commands on a bus that is not there.
use open_vbus.Base.{
  inr, inl, Bool-cases, ℕ, ◌≡◌, refl, ap, ◌∙◌, false, Option, some, none, List, [], ◌∷◌, Text,
  codes, text_eq, text_eq_iff, lookup, erase, lookup-insert, lookup-erase, if◌then◌else◌, ltb,
  length, arith,
}
use open_vbus.Frame.{hex_to_bytes}
use open_vbus.Net.{Capture, Sink, Socket}
use open_vbus.Net
use open_vbus.Bus.{Kind, eth, can}
use open_vbus.Daemon.Numbers.{stoul, stoull}
use open_vbus.Daemon.Replies.{Reply}
use open_vbus.Daemon.Replies
use open_vbus.Daemon.State.{
  World, BusWrap, Os, Handle, put_bus, detach_recorder, detach_sub, stop_capture, stop_cap,
  reset_sink, destroy_sink, close_sub, close_pipe, log, log_all,
}
use open_vbus.Daemon.Commands.{Command}
use open_vbus.Daemon.Commands
use open_vbus.Daemon.Handler.{
  send_limited, Outcome, answer, answered, create, create_at, delete, add_bus, new_wrap, with_bus,
  with_number,
}
use open_vbus.Daemon.Handler
use open_vbus.Daemon.Serve.{execute}

-- What the words after the name ask for, when they are right.
pub data Asks (type number : Text) : Kind → Reply → Type 0 where
  for_eth :
      {n : ℕ}
      → type ≡ codes "eth"
      → stoull number ≡ some n
      → Asks type number (eth n) Replies.created_eth
  for_can :
      {n : ℕ}
      → type ≡ codes "can"
      → stoul number ≡ some n
      → Asks type number (can n) Replies.created_can

lookup-add_bus :
    (name j : Text) (kind : Kind) (w : World)
    → lookup j (add_bus name kind w).buses
      ≡ (if text_eq name j then some (new_wrap w kind) else lookup j w.buses)
unfolding add_bus put_bus
lookup-add_bus name j kind w = lookup-insert name j (new_wrap w kind) w.buses

create_at_lem :
    (name type number : Text) (w : World) (kind : Kind) (r : Reply)
    → Asks type number kind r
    → create_at none name type number w ≡ answered (add_bus name kind w) r false
unfolding create_at text_eq
create_at_lem name type number w (eth n) r (for_eth e q) = rw (e, q) refl
create_at_lem name type number w (can n) r (for_can e q) = rw (e, q) refl

-- `create` with a new name and a good type and number answers its OK, and afterwards the name leads to
-- a new bus of that kind and every other name to what it led to before.
pub create_lem :
    (name type number : Text) (w : World) (kind : Kind) (r : Reply)
    → lookup name w.buses ≡ none
    → Asks type number kind r
    → (w' : World) × (create name type number w ≡ answered w' r false)
      × ((j : Text)
          → lookup j w'.buses
            ≡ (if text_eq name j then some (new_wrap w kind) else lookup j w.buses))
unfolding create
create_lem name type number w kind r e a = (
  add_bus name kind w,
  rw e (create_at_lem name type number w kind r a),
  λ j. lookup-add_bus name j kind w,
)

close_pipe-buses : (p : Option Handle) (s : ℕ) (w : World) → (close_pipe p s w).buses ≡ w.buses
unfolding close_pipe log
close_pipe-buses none s w = refl
close_pipe-buses (some p) s w = refl

log_all-buses : (ss : List Socket) (w : World) → (log_all ss w).buses ≡ w.buses
unfolding log_all
log_all-buses [] w = refl
log_all-buses (s ∷ ss) w = log_all-buses ss _

stop_cap-buses : (c : Option Capture) (b : BusWrap) (w : World) → (stop_cap c b w).1.buses ≡ w.buses
unfolding stop_cap
stop_cap-buses none b w = refl
stop_cap-buses (some c) b w = log_all-buses (Net.stop c).0 w

destroy_sink-buses :
    (k : Option Sink) (b : BusWrap) (w : World) → (destroy_sink k b w).1.buses ≡ w.buses
unfolding destroy_sink log
destroy_sink-buses none b w = refl
destroy_sink-buses (some k) b w = refl

-- `delete` of a bus that is there answers its OK, and afterwards its name leads nowhere and every
-- other name to what it led to before.
pub delete_lem :
    (name : Text) (w : World) (b : BusWrap)
    → lookup name w.buses ≡ some b
    → (w' : World) × (delete name w ≡ answered w' Replies.deleted false)
      × ((j : Text) → lookup j w'.buses ≡ (if text_eq name j then none else lookup j w.buses))
unfolding delete detach_sub close_sub stop_capture reset_sink detach_recorder
delete_lem name w b e =
    let (b₁, w₁) = detach_sub b w in
    let (b₂, w₂) = stop_capture (detach_recorder b₁) w₁ in
    let (b₃, w₃) = reset_sink b₂ w₂ in
    let same : w₃.buses ≡ w.buses =
      destroy_sink-buses b₂.sink b₂ w₂
      ∙ stop_cap-buses b.cap (detach_recorder b₁) w₁
      ∙ close_pipe-buses (w.subs b.sub).pipe b.sub w in
    (
      record w₃ { buses = erase name w₃.buses },
      rw (with_bus, e) refl,
      λ j.
          lookup-erase name j w₃.buses ∙ ap (λ m. if text_eq name j then none else lookup j m) same,
    )

-- A name made by `create` is refused a second time, and `delete` makes the table as it was.
pub create-delete :
    (name type number : Text) (w : World) (kind : Kind) (r : Reply)
    → lookup name w.buses ≡ none
    → Asks type number kind r
    → (w' w'' : World) × (create name type number w ≡ answered w' r false)
      × ((type₂ number₂ : Text)
          → create name type₂ number₂ w' ≡ answered w' Replies.already_exists false)
      × (delete name w' ≡ answered w'' Replies.deleted false)
      × ((j : Text) → lookup j w''.buses ≡ lookup j w.buses)
unfolding create create_at
create-delete name type number w kind r e a =
    let (w', p, l) = create_lem name type number w kind r e a in
    let found : lookup name w'.buses ≡ some (new_wrap w kind) =
      l name ∙ rw ((text_eq_iff name name).1 refl) refl in
    let (w'', q, m) = delete_lem name w' (new_wrap w kind) found in
    (
      w',
      w'',
      p,
      (λ type₂ number₂. rw found refl),
      q,
      (λ j. ground (arith, m j, l j, e, text_eq_iff name j)),
    )

-- The bus that a command needs. A CAN command whose payload is too long is refused before.
abbrev pub bus_of : Command → Option Text
bus_of (Commands.delete name) = some name
bus_of (Commands.stop_rec name) = some name
bus_of (Commands.stats_of name) = some name
bus_of (Commands.stop_capturing name) = some name
bus_of (Commands.stop_forward name) = some name
bus_of (Commands.subscribe name) = some name
bus_of (Commands.record_on name file) = some name
bus_of (Commands.record_off name) = some name
bus_of (Commands.send_eth name hex) = some name
bus_of (Commands.send_can name id hex) =
    if ltb 8 (length (hex_to_bytes hex)) then none else some name
bus_of (Commands.send_canfd name id hex) =
    if ltb 64 (length (hex_to_bytes hex)) then none else some name
bus_of (Commands.replay name file mode) = some name
bus_of (Commands.capture_udp name host port) = some name
bus_of (Commands.capture_tcp name host port target q) = some name
bus_of (Commands.forward_udp name host port) = some name
bus_of _ = none

-- The handler of a command that begins with the look-up ends there when the name is not found.
no_bus_lem :
    (n name : Text) (w : World) (k : BusWrap → Outcome)
    → some n ≡ some name
    → lookup name w.buses ≡ none
    → with_bus n w k ≡ answered w Replies.no_bus false
no_bus_lem n name w k q e =
    let same : n ≡ name = cc in
    let gone : lookup n w.buses ≡ none = rw same e in rw (with_bus, gone) refl

send_limited-no_bus :
    (proto limit : ℕ) (refusal : Reply) (os : Os) (n name id hex : Text) (w : World)
    → (if ltb limit (length (hex_to_bytes hex)) then none else some n) ≡ some name
    → lookup name w.buses ≡ none
    → send_limited proto limit refusal os n id hex w ≡ answered w Replies.no_bus false
unfolding send_limited
send_limited-no_bus proto limit refusal os n name id hex w q e =
    elim (Bool-cases (ltb limit (length (hex_to_bytes hex)))) [
      | inl t ↦ let no : none ≡ some name = rw t at q in cc
      | inr t ↦ rw t (no_bus_lem n name w _ (rw t at q) e)
    ]

-- A command on a bus that is not there answers `ERR no bus` and changes nothing.
pub missing_bus :
    (os : Os) (h : Handle) (c : Command) (name : Text) (w : World)
    → bus_of c ≡ some name
    → lookup name w.buses ≡ none
    → execute os h c w ≡ answered w Replies.no_bus false
unfolding execute delete Handler.record_off Handler.stats_of Handler.stop_capturing
    Handler.stop_forward Handler.subscribe Handler.record_on Handler.send_eth Handler.send_can
    Handler.send_canfd send_limited Handler.replay Handler.capture_udp Handler.capture_tcp
    Handler.forward_udp
missing_bus os h (Commands.delete n) name w q e = no_bus_lem n name w _ q e
missing_bus os h (Commands.stop_rec n) name w q e = no_bus_lem n name w _ q e
missing_bus os h (Commands.stats_of n) name w q e = no_bus_lem n name w _ q e
missing_bus os h (Commands.stop_capturing n) name w q e = no_bus_lem n name w _ q e
missing_bus os h (Commands.stop_forward n) name w q e = no_bus_lem n name w _ q e
missing_bus os h (Commands.subscribe n) name w q e = no_bus_lem n name w _ q e
missing_bus os h (Commands.record_on n a) name w q e = no_bus_lem n name w _ q e
missing_bus os h (Commands.record_off n) name w q e = no_bus_lem n name w _ q e
missing_bus os h (Commands.send_eth n a) name w q e = no_bus_lem n name w _ q e
missing_bus os h (Commands.replay n a b) name w q e = no_bus_lem n name w _ q e
missing_bus os h (Commands.capture_udp n a b) name w q e = no_bus_lem n name w _ q e
missing_bus os h (Commands.capture_tcp n a b d f) name w q e = no_bus_lem n name w _ q e
missing_bus os h (Commands.forward_udp n a b) name w q e = no_bus_lem n name w _ q e
missing_bus os h (Commands.send_can n a b) name w q e =
    send_limited-no_bus _ _ _ os n name a b w q e
missing_bus os h (Commands.send_canfd n a b) name w q e =
    send_limited-no_bus _ _ _ os n name a b w q e
missing_bus os h Commands.empty_line name w q e = cc
missing_bus os h Commands.unknown name w q e = cc
missing_bus os h Commands.list name w q e = cc
missing_bus os h Commands.quit name w q e = cc
missing_bus os h (Commands.create n a b) name w q e = cc
missing_bus os h (Commands.replay_udp n a b d) name w q e = cc
missing_bus os h (Commands.replay_sync n a) name w q e = cc
