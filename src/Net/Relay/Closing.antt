-- ===== src/Net/Relay/Closing.antt =====
-- How often the accept loop closes its sockets.
use open_vbus.Base.{
  inr, Option-cases, inl, Bool-cases, ℕ, ◌+◌, ◌≡◌, Bool, true, false, Option, none, some, List, [],
  ◌∷◌, ◌++◌, if◌then◌else◌, arith,
}
use open_vbus.Net.{Socket}
use open_vbus.Net.Relay.{
  proxy_connection, Accepting, connect_to, connect_socket, after_dialling, after_accept,
  accept_loop,
}
use open_vbus.Bus.Delivery.{times}

times-append : (s : ℕ) (xs ys : List ℕ) → times s (xs ++ ys) ≡ times s xs + times s ys
unfolding times
times-append s [] ys = omega arith
times-append s (x ∷ xs) ys = omega (arith, times-append s xs ys)

-- The sockets that a connection opens, and those that it proxies.
abbrev pub dialled : Bool → Option Socket → List Socket
dialled true (some s) = s ∷ []
dialled _ _ = []

abbrev pub proxied_pair : Socket → Bool → Bool → Option Socket → List Socket
proxied_pair client true true (some s) = client ∷ s ∷ []
proxied_pair client _ _ _ = []

-- Over the rounds that the loop makes: it ends where it is stopped or `accept` fails.
unfoldable pub opened : List Accepting → List Socket
opened [] = []
opened (a ∷ more) =
    let rest = opened more in
    if a.running
    then elim a.client [
      | none ↦ []
      | some c ↦ c ∷ (dialled a.dialling.resolved a.dialling.socket ++ rest)
    ]
    else []

unfoldable pub proxied : List Accepting → List Socket
proxied [] = []
proxied (a ∷ more) =
    let rest = proxied more in
    let d = a.dialling in
    if a.running
    then elim a.client [
      | none ↦ []
      | some c ↦ proxied_pair c d.resolved d.connected d.socket ++ rest
    ]
    else []

times-after_dialling :
    (s c : Socket) (resolved connected : Bool) (o : Option Socket)
    → times s (after_dialling c (connect_socket connected (if resolved then o else none)))
      ≡ times s (c ∷ dialled resolved o) + times s (proxied_pair c resolved connected o)
unfolding after_dialling connect_socket proxy_connection times
times-after_dialling s c true true (some t) = omega arith
times-after_dialling s c true false (some t) = omega arith
times-after_dialling s c false true (some t) = omega arith
times-after_dialling s c false false (some t) = omega arith
times-after_dialling s c true true none = omega arith
times-after_dialling s c true false none = omega arith
times-after_dialling s c false true none = omega arith
times-after_dialling s c false false none = omega arith

-- The accept loop leaks no socket, and closes each socket of a proxied connection a second time: it
-- closes every socket as often as it was opened and, once more, as often as it was proxied.
pub accept_loop_closes :
    (s : Socket) (turns : List Accepting)
    → times s (accept_loop turns) ≡ times s (opened turns) + times s (proxied turns)
unfolding accept_loop opened proxied after_accept connect_to times
accept_loop_closes s [] = omega arith
accept_loop_closes s (a ∷ more) =
    let d = a.dialling in
    let closed : Socket → List Socket = λ c. after_dialling c (connect_to d) in
    let split = times-append s in
    elim (Bool-cases a.running) [
      | inl e ↦ elim (Option-cases a.client) [
        | inl n ↦ rw (e, n) (omega arith)
        | inr (c, n) ↦
            rw (e, n)
              (omega (
                arith,
                split (closed c) (accept_loop more),
                split (dialled d.resolved d.socket) (opened more),
                split (proxied_pair c d.resolved d.connected d.socket) (proxied more),
                times-after_dialling s c d.resolved d.connected d.socket,
                accept_loop_closes s more,
              ))
      ]
      | inr e ↦ rw e (omega arith)
    ]
