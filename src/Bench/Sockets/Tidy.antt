-- ===== src/Bench/Sockets/Tidy.antt =====
-- How the loops of the benchmark end, and the sockets that are open around them.
use open_vbus.Base.{
  if_cases, refl, ◌==◌, if◌then◌else◌, inr, ◌||◌, inl, ◌>>=◌, false, Bool-cases, arith, true, none,
  ◌++◌, [], some, Bool, ◌∷◌, ◌≡◌, List, Option, ℕ,
}
use open_vbus.Bench.Sender.{Turn, Sender, SendResult, turn, run}
use open_vbus.Bench.Report.{Receipt, Client, Visit}
use open_vbus.Bench.Sockets.{
  Call, opened, closed, Run, refused, send_with, udp_over, client_over, visit_over, tcp_over,
  visit_calls, tcp_calls, stream_over, stream_calls, obtained, sink_run,
}

-- The sockets that are left, where `s` is taken off once.
abbrev pub without : ℕ → List ℕ → Option (List ℕ)
without s [] = none
without s (x ∷ held) =
    let rest = without s held in
    if x == s then some held else (rest >>= λ others. some (x ∷ others))

-- The sockets that are open after some calls, or `none` where one is closed that is not open.
abbrev pub held_after : List Call → List ℕ → Option (List ℕ)
held_after [] held = some held
held_after (opened s ∷ calls) held = held_after calls (s ∷ held)
held_after (closed none ∷ calls) held = held_after calls held
held_after (closed (some s) ∷ calls) held = without s held >>= λ others. held_after calls others

-- A run that has ended with an exit status, each of its sockets closed once and no other.
pub record IsTidy (r : Run) : Type 0 where
  pub code : ℕ
  pub ended : r.status ≡ some code
  pub none_left : held_after r.calls [] ≡ some []

abbrev pub told_to_stop : List Turn → Bool
told_to_stop [] = false
told_to_stop (t ∷ ts) = t.stop || told_to_stop ts

bind_bind :
    (o : Option (List ℕ)) (f g h : List ℕ → Option (List ℕ))
    → ((held : List ℕ) → h held ≡ (f held >>= λ others. g others))
    → (o >>= λ others. h others) ≡ ((o >>= λ others. f others) >>= λ others. g others)
bind_bind none f g h e = refl
bind_bind (some held) f g h e = e held

pub held-append :
    (xs ys : List Call) (held : List ℕ)
    → held_after (xs ++ ys) held ≡ (held_after xs held >>= λ others. held_after ys others)
held-append [] ys held = refl
held-append (opened s ∷ xs) ys held = held-append xs ys (s ∷ held)
held-append (closed none ∷ xs) ys held = held-append xs ys held
held-append (closed (some s) ∷ xs) ys held =
    bind_bind (without s held) (held_after xs) (held_after ys) (held_after (xs ++ ys))
      (λ others. held-append xs ys others)

closes_first : (s : ℕ) (held : List ℕ) → without s (s ∷ held) ≡ some held
closes_first s held = ground arith

closes_second : (s t : ℕ) → without s (t ∷ s ∷ []) ≡ some (t ∷ [])
closes_second s t = ground arith

-- the sockets of the sink, in the order in which it has them
abbrev pub open_both : Option ℕ → Option ℕ → List ℕ
open_both none none = []
open_both none (some t) = t ∷ []
open_both (some s) none = s ∷ []
open_both (some s) (some t) = t ∷ s ∷ []

pub opens_both :
    (udp tcp : Option ℕ) → held_after (obtained udp ++ obtained tcp) [] ≡ some (open_both udp tcp)
unfolding obtained
opens_both none none = refl
opens_both none (some t) = refl
opens_both (some s) none = refl
opens_both (some s) (some t) = refl

pub closes_both :
    (udp tcp : Option ℕ) → held_after (closed udp ∷ closed tcp ∷ []) (open_both udp tcp) ≡ some []
closes_both none none = refl
closes_both none (some t) = rw (closes_first t []) refl
closes_both (some s) none = rw (closes_first s []) refl
closes_both (some s) (some t) = rw (closes_second s t) (rw (closes_first t []) refl)

pub gives_up :
    (udp tcp : Option ℕ)
    → held_after ((obtained udp ++ obtained tcp) ++ closed tcp ∷ []) [] ≡ some (open_both udp none)
unfolding obtained
gives_up none none = refl
gives_up none (some t) = rw (closes_first t []) refl
gives_up (some s) none = refl
gives_up (some s) (some t) = rw (closes_first t (s ∷ [])) refl

module _ (after : ℕ → SendResult → ℕ → Sender → Sender) (rate duration : ℕ) where
  run-ended :
      (ts : List Turn) (s : Sender) → s.over ≡ true → (run after rate duration ts s).over ≡ true
  unfolding run
  run-ended [] s e = e
  run-ended (t ∷ ts) s e = rw e refl

  turn-stop : (t : Turn) (s : Sender) → t.stop ≡ true → (turn after rate duration t s).over ≡ true
  unfolding turn
  turn-stop t s e = rw e refl

  pub run-over :
      (ts : List Turn) (s : Sender)
      → told_to_stop ts ≡ true
      → (run after rate duration ts s).over ≡ true
  unfolding run
  run-over [] s h = ground arith
  run-over (t ∷ ts) s h =
      if_cases {A = Sender} (λ r. r.over ≡ true) s.over _ _ (λ e. e)
        (λ _. elim (Bool-cases t.stop) [
          | inl f ↦ run-ended ts (turn after rate duration t s) (turn-stop t s f)
          | inr f ↦ run-over ts (turn after rate duration t s) (ground arith)
        ])

pub send_with-IsTidy : (s : ℕ) (sender : Sender) → sender.over ≡ true → IsTidy (send_with s sender)
unfolding send_with
send_with-IsTidy s sender e =
    rw e (record { code = 0; ended = refl; none_left = rw (closes_first s []) refl })

pub refused-IsTidy : (calls : List Call) → held_after calls [] ≡ some [] → IsTidy (refused calls)
unfolding refused
refused-IsTidy calls h = record { code = 1; ended = refl; none_left = h }

pub closes_one : (s : ℕ) → held_after (opened s ∷ closed (some s) ∷ []) [] ≡ some []
closes_one s = rw (closes_first s []) refl

visit-held :
    (c : Option Client) (calls : List Call) (rest : Bool) (held : List ℕ)
    → visit_over c rest ≡ true
    → (rest ≡ true → held_after calls held ≡ some held)
    → held_after (visit_calls c calls) held ≡ some held
unfolding visit_over visit_calls
visit-held none calls rest held h k = k h
visit-held (some c) calls rest held h k =
    let e : client_over c.receipts ≡ true = ground arith in
    let f : rest ≡ true = ground arith in rw (e, closes_first c.socket held) (k f)

tcp_calls-held :
    (vs : List Visit) (held : List ℕ)
    → tcp_over vs ≡ true
    → held_after (tcp_calls vs) held ≡ some held
unfolding tcp_over tcp_calls
tcp_calls-held [] held h = refl
tcp_calls-held (v ∷ vs) held h = elim (Bool-cases v.stop) [
  | inl e ↦ rw e refl
  | inr e ↦ rw e (
      visit-held v.client (tcp_calls vs) (tcp_over vs) held (ground arith) (tcp_calls-held vs held))
]

stream-over : (tcp : Option ℕ) (vs : List Visit) → tcp_over vs ≡ true → stream_over tcp vs ≡ true
unfolding stream_over
stream-over none vs h = refl
stream-over (some t) vs h = h

stream-held :
    (tcp : Option ℕ) (vs : List Visit) (held : List ℕ)
    → tcp_over vs ≡ true
    → held_after (stream_calls tcp vs) held ≡ some held
unfolding stream_calls
stream-held none vs held h = refl
stream-held (some t) vs held h = tcp_calls-held vs held h

pub sink-IsTidy :
    (udp tcp : Option ℕ) (rs : List Receipt) (vs : List Visit) (calls : List Call)
    → udp_over rs ≡ true
    → tcp_over vs ≡ true
    → held_after calls [] ≡ some (open_both udp tcp)
    → IsTidy (sink_run udp tcp rs vs calls)
unfolding sink_run
sink-IsTidy udp tcp rs vs calls h k e =
    rw (h, stream-over tcp vs k)
      (record {
        code = 0;
        ended = refl;
        none_left =
            rw
              (
                held-append calls (stream_calls tcp vs ++ closed udp ∷ closed tcp ∷ []) [],
                e,
                held-append (stream_calls tcp vs) (closed udp ∷ closed tcp ∷ [])
                    (open_both udp tcp),
                stream-held tcp vs (open_both udp tcp) k,
              )
              (closes_both udp tcp);
      })
