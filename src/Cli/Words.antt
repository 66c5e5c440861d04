-- ===== src/Cli/Words.antt =====
-- The words that vbusctl joins, as the daemon splits them.
use open_vbus.Base.{
  ℕ, ◌≡◌, refl, sym, ap, ◌∙◌, false, List, [], ◌∷◌, ◌++◌, append-nil, append_assoc, Text, All,
  arith,
}
use open_vbus.Daemon.Commands.{is_space, split_from, split, parse}
use open_vbus.Daemon.Serve.{trim, serve, handle_cmd, execute, respond}
use open_vbus.Daemon.State.{Os, Handle, World}
use open_vbus.Cli.{join}

-- A word that is not empty and has no white space.
pub data IsWord : Text → Type 0 where
  word : (c : ℕ) (s : Text) → All (λ x. is_space x ≡ false) (c ∷ s) → IsWord (c ∷ s)

split_from-word :
    (w s rest : Text)
    → All (λ x. is_space x ≡ false) s
    → split_from w (s ++ rest) ≡ split_from (w ++ s) rest
unfolding split_from
split_from-word w [] rest h = ap (λ v. split_from v rest) (sym (append-nil w))
split_from-word w (c ∷ s) rest (hc, hs) = rw hc (
    split_from-word (w ++ c ∷ []) s rest hs
    ∙ ap (λ v. split_from v rest) (append_assoc w (c ∷ []) s))

split_from-end : (s : Text) → IsWord s → split_from s [] ≡ s ∷ []
unfolding split_from
split_from-end _ (word c s h) = refl

split_from-blank : (s rest : Text) → IsWord s → split_from s (32 ∷ rest) ≡ s ∷ split_from [] rest
unfolding split_from is_space
split_from-blank _ rest (word c s h) = refl

spaceless : (s : Text) → IsWord s → All (λ x. is_space x ≡ false) s
spaceless _ (word c s h) = h

-- The daemon splits a command line into the arguments that vbusctl joined, if these are words.
pub split-join : (args : List Text) → All IsWord args → split (join args) ≡ args
unfolding split join
split-join [] h = refl
split-join (a ∷ []) (h, hs) =
    ap (split_from []) (sym (append-nil a))
    ∙ (split_from-word [] a [] (spaceless a h) ∙ split_from-end a h)
split-join (a ∷ b ∷ rest) (h, hs) =
    split_from-word [] a (32 ∷ join (b ∷ rest)) (spaceless a h)
    ∙ (split_from-blank a (join (b ∷ rest)) h ∙ ap (◌∷◌ a) (split-join (b ∷ rest) hs))

-- The last character is no white space.
abbrev EndsWell : Text → Type 0
EndsWell [] = Unit {0}
EndsWell (c ∷ []) = is_space c ≡ false
EndsWell (c ∷ d ∷ s) = EndsWell (d ∷ s)

EndsWell-append : (s : Text) (c : ℕ) (t : Text) → EndsWell (c ∷ t) → EndsWell (s ++ c ∷ t)
EndsWell-append [] c t h = h
EndsWell-append (d ∷ []) c t h = h
EndsWell-append (d ∷ e ∷ s) c t h = EndsWell-append (e ∷ s) c t h

EndsWell-spaceless : (s : Text) → All (λ x. is_space x ≡ false) s → EndsWell s
EndsWell-spaceless [] h = tt
EndsWell-spaceless (c ∷ []) (h, hs) = h
EndsWell-spaceless (c ∷ d ∷ s) (h, hs) = EndsWell-spaceless (d ∷ s) hs

trim-EndsWell : (s : Text) → EndsWell s → trim (s ++ 10 ∷ []) ≡ s
unfolding trim is_space
trim-EndsWell [] h = refl
trim-EndsWell (c ∷ []) h = ground arith
trim-EndsWell (c ∷ d ∷ s) h = rw (trim-EndsWell (d ∷ s) h) refl

join-EndsWell : (args : List Text) → All IsWord args → EndsWell (join args)
unfolding join
join-EndsWell [] h = tt
join-EndsWell (a ∷ []) (h, hs) = EndsWell-spaceless a (spaceless a h)
join-EndsWell (a ∷ _ ∷ []) (h, (word c s k, hs)) =
    EndsWell-append a 32 (c ∷ s) (EndsWell-spaceless (c ∷ s) k)
join-EndsWell (a ∷ _ ∷ d ∷ rest) (h, (word c s k, hs)) =
    EndsWell-append a 32 (join ((c ∷ s) ∷ d ∷ rest))
      (join-EndsWell ((c ∷ s) ∷ d ∷ rest) (word c s k, hs))

-- The daemon takes the line that vbusctl sends for the words of its command line as the command of
-- just these words.
pub serve-join :
    (os : Os) (h : Handle) (args : List Text) (w : World)
    → All IsWord args
    → serve os h (join args ++ 10 ∷ []) w ≡ respond (execute os h (parse args) w)
unfolding serve handle_cmd
serve-join os h args w ws =
    let line : trim (join args ++ 10 ∷ []) ≡ join args =
      trim-EndsWell (join args) (join-EndsWell args ws) in
    rw line (rw (split-join args ws) refl)
