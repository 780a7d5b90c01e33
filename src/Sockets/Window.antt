-- ===== src/Sockets/Window.antt =====
-- The limit on group messages (`allowGroupProtocolSend` of internal/websocket/messaging.go) against a
-- limit that remembers every message.
use platarium_gateway_go.Common.{
  ℕ, suc, ◌^◌, ◌≤◌, ◌<◌, ◌≡◌, refl, sym, ◌∙◌, ap, Bool, true, false, List, [], ◌∷◌, ◌++◌, keep_if,
  length, ltb, leb, if◌then◌else◌, arith, Bool-cases, inl, inr,
}
use platarium_gateway_go.Common.Int.{ℤ, pos, negsuc, sub_ℕ, leb_ℤ, sub64, sub64_pos}
use platarium_gateway_go.Common.Text.{Text, text_eq, text_beq, text_beq_iff}
use platarium_gateway_go.Common.Maps.{Table, set_at}
use platarium_gateway_go.Sockets.Address.{normalize_platarium_address}
use platarium_gateway_go.Sockets.Types.{Server}
use platarium_gateway_go.Sockets.Messages.{kept_hits, allow_group_protocol_send}

-- Senders, and the times of their messages.
abbrev pub Sends : Type 0
Sends = List (Text × ℕ)

unfoldable pub answers : Sends → Server → List Bool
unfolding allow_group_protocol_send
answers [] s = []
answers ((from, now) ∷ sends) s =
    let (s', fine) = allow_group_protocol_send from (pos now) s in fine ∷ answers sends s'

-- How many of the times lie at most a minute before `now`, or after it.
unfoldable pub recent : ℕ → List ℤ → ℕ
recent now [] = 0
recent now (t ∷ ts) = if leb_ℤ (sub_ℕ now 60) t then suc (recent now ts) else recent now ts

-- A message is allowed where fewer than 120 were in its last minute; no time is ever dropped.
unfoldable pub ideal_answers : Sends → Table (List ℤ) → List Bool
unfolding recent normalize_platarium_address text_beq
ideal_answers [] history = []
ideal_answers ((from, now) ∷ sends) history =
    let key = normalize_platarium_address from in
    let past = history key in
    let fine = ltb (recent now past) 120 in
    fine
    ∷ ideal_answers sends (if fine then set_at key (past ++ (pos now ∷ [])) history else history)

-- The clock does not go back, and an int64 holds it.
abbrev pub IsClocked : ℕ → Sends → Type 0
IsClocked earliest [] = Unit {0}
IsClocked earliest ((from, now) ∷ sends) = (earliest ≤ now) × (now < 2 ^ 63) × IsClocked now sends

keep_if-keep_if :
    (p q : ℤ → Bool) (ts : List ℤ)
    → ((t : ℤ) → p t ≡ true → q t ≡ true)
    → keep_if p (keep_if q ts) ≡ keep_if p ts
unfolding keep_if
keep_if-keep_if p q [] h = refl
keep_if-keep_if p q (t ∷ ts) h = ground (arith, keep_if-keep_if p q ts h, h t)

keep_if-append :
    (p : ℤ → Bool) (ts us : List ℤ) → keep_if p (ts ++ us) ≡ keep_if p ts ++ keep_if p us
unfolding keep_if
keep_if-append p [] us = refl
keep_if-append p (t ∷ ts) us = ground (arith, keep_if-append p ts us)

length-kept_hits :
    (now : ℕ) (ts : List ℤ) → now < 2 ^ 63 → length (kept_hits (pos now) ts) ≡ recent now ts
unfolding kept_hits keep_if recent
length-kept_hits now [] h = refl
length-kept_hits now (t ∷ ts) h = elim (Bool-cases (leb_ℤ (sub64 (pos now) (pos 60)) t)) [
  | inl e ↦ rw (e, sym same ∙ e) (ap suc (length-kept_hits now ts h))
  | inr e ↦ rw (e, sym same ∙ e) (length-kept_hits now ts h)
]
  where
    same : leb_ℤ (sub64 (pos now) (pos 60)) t ≡ leb_ℤ (sub_ℕ now 60) t
    same = ap (λ c. leb_ℤ c t) (sub64_pos now 60 h (omega arith))

cut_ℕ_mono :
    (now later : ℕ) (t : ℤ)
    → now ≤ later
    → leb_ℤ (sub_ℕ later 60) t ≡ true
    → leb_ℤ (sub_ℕ now 60) t ≡ true
cut_ℕ_mono now later (pos t) h e = ground arith
cut_ℕ_mono now later (negsuc t) h e = ground arith

cut_mono :
    (now later : ℕ) (t : ℤ)
    → now ≤ later
    → later < 2 ^ 63
    → leb_ℤ (sub64 (pos later) (pos 60)) t ≡ true
    → leb_ℤ (sub64 (pos now) (pos 60)) t ≡ true
cut_mono now later t h k e =
    ap (λ c. leb_ℤ c t) (sub64_pos now 60 (omega arith) (omega arith))
    ∙ cut_ℕ_mono now later t h (sym (ap (λ c. leb_ℤ c t) (sub64_pos later 60 k (omega arith))) ∙ e)

kept_hits-kept_hits :
    (now later : ℕ) (ts : List ℤ)
    → now ≤ later
    → later < 2 ^ 63
    → kept_hits (pos later) (kept_hits (pos now) ts) ≡ kept_hits (pos later) ts
unfolding kept_hits
kept_hits-kept_hits now later ts h k = keep_if-keep_if _ _ ts (λ t. cut_mono now later t h k)

kept_hits-append :
    (now : ℕ) (ts us : List ℤ)
    → kept_hits (pos now) (ts ++ us) ≡ kept_hits (pos now) ts ++ kept_hits (pos now) us
unfolding kept_hits
kept_hits-append now ts us = keep_if-append _ ts us

-- From `earliest` on, the times that the server keeps count like all the times.
record Agrees (earliest : ℕ) (s : Server) (history : Table (List ℤ)) : Type 0 where
  kept :
      (k : Text) (later : ℕ)
      → earliest ≤ later
      → later < 2 ^ 63
      → kept_hits (pos later) (s.group_protocol_hits k) ≡ kept_hits (pos later) (history k)

set_at-Agrees :
    (now : ℕ) (key : Text) (ts us : List ℤ) (s : Server) (history : Table (List ℤ))
    → Agrees now s history
    → ((later : ℕ)
        → now ≤ later
        → later < 2 ^ 63
        → kept_hits (pos later) ts ≡ kept_hits (pos later) us)
    → Agrees now
        (record s { group_protocol_hits = set_at key ts s.group_protocol_hits })
        (set_at key us history)
set_at-Agrees now key ts us s history v h = record {
  kept = λ k later a b. elim (Bool-cases (text_beq key k)) [
    | inl e ↦ rw e (h later a b)
    | inr e ↦ rw e (v.kept k later a b)
  ];
}

trimmed-Agrees :
    (now : ℕ) (key : Text) (ts : List ℤ) (s : Server) (history : Table (List ℤ))
    → Agrees now s history
    → ((later : ℕ)
        → now ≤ later
        → later < 2 ^ 63
        → kept_hits (pos later) ts ≡ kept_hits (pos later) (history key))
    → Agrees now (record s { group_protocol_hits = set_at key ts s.group_protocol_hits }) history
trimmed-Agrees now key ts s history v h = record {
  kept = λ k later a b. elim (Bool-cases (text_beq key k)) [
    | inl e ↦
        rw e (h later a b ∙ ap (λ t. kept_hits (pos later) (history t)) ((text_beq_iff key k).0 e))
    | inr e ↦ rw e (v.kept k later a b)
  ];
}

answers-ideal_answers :
    (sends : Sends) (earliest : ℕ) (s : Server) (history : Table (List ℤ))
    → Agrees earliest s history
    → IsClocked earliest sends
    → answers sends s ≡ ideal_answers sends history
unfolding answers ideal_answers allow_group_protocol_send
answers-ideal_answers [] earliest s history v c = refl
answers-ideal_answers ((from, now) ∷ sends) earliest s history v (a, b, c) =
    elim (Bool-cases (leb 120 (length kept))) [
      | inl e ↦
          let f : ltb (recent now (history key)) 120 ≡ false = ground (arith, e, counted) in
          rw (e, f)
            (ap (◌∷◌ false) (
              answers-ideal_answers sends now
                (record s { group_protocol_hits = set_at key kept s.group_protocol_hits }) history
                (trimmed-Agrees now key kept s history sooner full) c))
      | inr e ↦
          let f : ltb (recent now (history key)) 120 ≡ true = ground (arith, e, counted) in
          rw (e, f)
            (ap (◌∷◌ true) (
              answers-ideal_answers sends now
                (record s {
                  group_protocol_hits = set_at key (kept ++ (pos now ∷ [])) s.group_protocol_hits;
                })
                (set_at key (history key ++ (pos now ∷ [])) history)
                (set_at-Agrees now key (kept ++ (pos now ∷ [])) (history key ++ (pos now ∷ [])) s
                  history sooner longer)
                c))
    ]
  where
    key : Text
    key = normalize_platarium_address from

    kept : List ℤ
    kept = kept_hits (pos now) (s.group_protocol_hits key)

    counted : length kept ≡ recent now (history key)
    counted = ap length (v.kept key now a b) ∙ length-kept_hits now (history key) b

    sooner : Agrees now s history
    sooner = record { kept = λ k later x y. v.kept k later (omega (arith, a, x)) y }

    full :
        (later : ℕ)
        → now ≤ later
        → later < 2 ^ 63
        → kept_hits (pos later) kept ≡ kept_hits (pos later) (history key)
    full later x y =
        kept_hits-kept_hits now later (s.group_protocol_hits key) x y ∙ sooner.kept key later x y

    longer :
        (later : ℕ)
        → now ≤ later
        → later < 2 ^ 63
        → kept_hits (pos later) (kept ++ (pos now ∷ []))
          ≡ kept_hits (pos later) (history key ++ (pos now ∷ []))
    longer later x y =
        kept_hits-append later kept (pos now ∷ [])
        ∙ ap (λ ts. ts ++ kept_hits (pos later) (pos now ∷ [])) (full later x y)
        ∙ sym (kept_hits-append later (history key) (pos now ∷ []))

-- The group messages that a server allows which has seen none, from any senders and in any number, are
-- those of a limit that remembers the times of all that it allowed, and allows one where fewer than 120
-- of its sender's were in the minute before it; the clock does not go back, and stands at a time
-- between 1970 and the greatest int64.
pub answers_refine :
    (sends : Sends) (s : Server)
    → ((k : Text) → s.group_protocol_hits k ≡ [])
    → IsClocked 0 sends
    → answers sends s ≡ ideal_answers sends (λ _. [])
answers_refine sends s h c =
    answers-ideal_answers sends 0 s (λ _. [])
      (record { kept = λ k later a b. ap (kept_hits (pos later)) (h k) }) c
