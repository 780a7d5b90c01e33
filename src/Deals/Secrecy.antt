-- ===== src/Deals/Secrecy.antt =====
-- What a commitment and a failed call do on the panel of internal/deals/book.go.
use platarium_gateway_go.Common.{
  ℕ, ◌/◌, ◌%◌, ◌<◌, ◌≡◌, refl, sym, ◌∙◌, ◌≢◌, inl, inr, true, ◌&&◌, ◌||◌, not, none, some, List, [],
  ◌∷◌, arith, ◌==◌, Bool-cases, Option-cases, subst, ap, some_inj, All,
}
use platarium_gateway_go.Common.Text.{Text, text_eq, text_beq, text_beq_iff}
use platarium_gateway_go.Common.Dict.{lookup, insert}
use platarium_gateway_go.Deals.Sets.{contains}
use platarium_gateway_go.Deals.Panel.{
  Sha256, strings_trim, pick_five, panel_seed, hex_digit, hex, commit_bytes, hash_commit,
}
use platarium_gateway_go.Deals.Quorum.{verdict_fulfilled, verdict_not_fulfilled}
use platarium_gateway_go.Deals.Book.{Case, Book, Result, ok, err, panic}
use platarium_gateway_go.Deals.Methods.{
  commit_case, commit, finish, reveal_case, reveal_nonce, reveal_found, open_appeal, open_fresh,
  file_panel, reopen, pool_of, case_id_of,
}
use platarium_gateway_go.Deals.Reading.{reveals_of}
use platarium_gateway_go.Deals.Case.{IsVerdict, reveal_case-inv}
use platarium_gateway_go.Deals.Filed.{BookInv}

hex_digit-injective : (a b : ℕ) → a < 16 → b < 16 → hex_digit a ≡ hex_digit b → a ≡ b
unfolding hex_digit
hex_digit-injective a b h k e = ground arith

hex-injective : (s t : Text) → All (λ c. c < 256) s → All (λ c. c < 256) t → hex s ≡ hex t → s ≡ t
unfolding hex
hex-injective [] [] h k e = refl
hex-injective [] (d ∷ t) h k e = cc
hex-injective (c ∷ s) [] h k e = cc
hex-injective (c ∷ s) (d ∷ t) h k e =
    let high = hex_digit-injective (c / 16) (d / 16) (omega arith) (omega arith) (cc) in
    let low = hex_digit-injective (c % 16) (d % 16) (omega arith) (omega arith) (cc) in
    let same : c ≡ d = omega arith in let rest = hex-injective s t h.1 k.1 (cc) in cc

commit_bytes-ne :
    (n m : Text) → commit_bytes verdict_fulfilled n ≢ commit_bytes verdict_not_fulfilled m
unfolding commit_bytes
commit_bytes-ne n m e = ground (arith, Bool-cases (text_beq n []), Bool-cases (text_beq m []))

commit_bytes-verdict :
    (v w n m : Text) → IsVerdict v → IsVerdict w → commit_bytes v n ≡ commit_bytes w m → v ≡ w
unfolding commit_bytes
commit_bytes-verdict v w n m (inl a) (inl b) e = a ∙ sym b
commit_bytes-verdict v w n m (inr a) (inr b) e = a ∙ sym b
commit_bytes-verdict v w n m (inl a) (inr b) e =
    absurd (
      commit_bytes-ne n m (sym (ap (λ t. commit_bytes t n) a) ∙ (e ∙ ap (λ t. commit_bytes t m) b)))
commit_bytes-verdict v w n m (inr a) (inl b) e = absurd (
    commit_bytes-ne m n
      (sym (ap (λ t. commit_bytes t m) b) ∙ (sym e ∙ ap (λ t. commit_bytes t n) a)))

-- A commitment binds: unless SHA-256 collides on the two inputs, a member cannot have reveals of both
-- verdicts taken against one commitment.
pub reveal_case_binds :
    (sha : Sha256) (k v w n m : Text) (c d e : Case)
    → IsVerdict v
    → IsVerdict w
    → (sha.sum (commit_bytes v n) ≡ sha.sum (commit_bytes w m)
        → commit_bytes v n ≡ commit_bytes w m)
    → reveal_case sha k v n c ≡ ok d
    → reveal_case sha k w m c ≡ ok e
    → v ≡ w
unfolding hash_commit
reveal_case_binds sha k v w n m c d e i j collide p q =
    let a = (reveal_case-inv sha k v n c d p).1 in
    let b = (reveal_case-inv sha k w m c e q).1 in
    let same : hash_commit sha v n ≡ hash_commit sha w m = some_inj (sym a ∙ b) in
    commit_bytes-verdict v w n m i j (
      collide (
        hex-injective _ _ (sha.bytes-sum (commit_bytes v n)) (sha.bytes-sum (commit_bytes w m))
          same))

finish_refused :
    (id : Text) (b : Book) (r : Result Case) → (finish id b r).1 ≢ ok tt → (finish id b r).0 ≡ b
unfolding finish
finish_refused id b (ok c) h = absurd (h refl)
finish_refused id b (err e) h = refl
finish_refused id b panic h = refl

commit_refused :
    (id key hash : Text) (b : Book)
    → (commit id key hash b).1 ≢ ok tt
    → (commit id key hash b).0 ≡ b
unfolding commit
commit_refused id key hash b = elim (Option-cases (lookup id b.cases)) [
  | inl n ↦ rw (n, commit) (λ h. refl)
  | inr (c, m) ↦ rw (m, commit) (finish_refused id b (commit_case key hash c))
]

reveal_found_refused :
    (sha : Sha256) (id key verdict nonce : Text) (b : Book)
    → (reveal_found sha id key verdict nonce b).1 ≢ ok tt
    → (reveal_found sha id key verdict nonce b).0 ≡ b
unfolding reveal_found
reveal_found_refused sha id key verdict nonce b = elim (Option-cases (lookup id b.cases)) [
  | inl n ↦ rw (n, reveal_found) (λ h. refl)
  | inr (c, m) ↦ rw (m, reveal_found) (finish_refused id b (reveal_case sha key verdict nonce c))
]

reveal_refused :
    (sha : Sha256) (id key verdict nonce : Text) (b : Book)
    → (reveal_nonce sha id key verdict nonce b).1 ≢ ok tt
    → (reveal_nonce sha id key verdict nonce b).0 ≡ b
unfolding reveal_nonce
reveal_refused sha id key verdict nonce b =
    elim (Bool-cases
      (not (verdict == verdict_fulfilled) && not (verdict == verdict_not_fulfilled))) [
        | inl bad ↦ rw bad (λ h. refl)
        | inr good ↦ rw good (reveal_found_refused sha id key verdict nonce b)
      ]

-- A commitment or a reveal that is refused, for whatever reason, leaves the book as it was.
refused_calls :
    (sha : Sha256) (id key hash verdict nonce : Text) (b : Book)
    → ((commit id key hash b).1 ≢ ok tt → (commit id key hash b).0 ≡ b)
      × ((reveal_nonce sha id key verdict nonce b).1 ≢ ok tt
          → (reveal_nonce sha id key verdict nonce b).0 ≡ b)
refused_calls sha id key hash verdict nonce b =
    (commit_refused id key hash b, reveal_refused sha id key verdict nonce b)

commit_case_ok :
    (key hash : Text) (c : Case)
    → contains key c.panel_set ≡ true
    → lookup key c.commits ≡ none
    → hash ≢ []
    → commit_case key hash c ≡ ok (record c { commits = insert key hash c.commits })
unfolding commit_case
commit_case_ok key hash c on new n = ground (arith, text_beq_iff hash [])

finish_ok : (id : Text) (b : Book) (c : Case) → (finish id b (ok c)).1 ≡ ok tt
unfolding finish
finish_ok id b c = refl

file_panel-ne-panic :
    (sha : Sha256) (terms block escrow prior : Text) (panel : List Text) (b : Book)
    → (file_panel sha terms block escrow prior panel b).1 ≢ panic
unfolding file_panel
file_panel-ne-panic sha terms block escrow prior panel b =
    elim (Bool-cases (case_id_of sha escrow (hex (sha.sum terms)) == escrow)) [
      | inl e ↦ rw e (λ p. cc)
      | inr e ↦ rw e (λ p. cc)
    ]

-- A seated member who has not committed may still commit once the case is frozen and its reveals are
-- open to read.
commit_after_freeze :
    (id key hash : Text) (b : Book) (c : Case)
    → lookup id b.cases ≡ some c
    → c.frozen ≡ true
    → contains key c.panel_set ≡ true
    → lookup key c.commits ≡ none
    → hash ≢ []
    → (reveals_of id b ≡ ok c.reveals) × ((commit id key hash b).1 ≡ ok tt)
unfolding commit reveals_of
commit_after_freeze id key hash b c m f on new n = (
  rw (m, reveals_of) (ground arith),
  rw (m, commit)
      (subst (λ r. (finish id b r).1 ≡ ok tt) (sym (commit_case_ok key hash c on new n))
        (finish_ok id b (record c { commits = insert key hash c.commits }))),
)

reopen-ne-panic :
    (id prior : Text) (b : Book) (c : Case)
    → lookup id b.cases ≡ some c
    → (reopen id prior b).1 ≢ panic
unfolding reopen
reopen-ne-panic id prior b c m = rw (m, reopen) (λ e. cc)

open_fresh-ne-panic :
    (sha : Sha256) (terms block escrow : Text) (bonded exclude : List Text) (prior : Text)
    (b : Book)
    → (open_fresh sha terms block escrow bonded exclude prior b).1 ≢ panic
unfolding open_fresh
open_fresh-ne-panic sha terms block escrow bonded exclude prior b =
    elim (Option-cases
      (pick_five sha (panel_seed sha escrow terms 1 1) (pool_of b bonded) exclude)) [
        | inl n ↦ rw (n, open_fresh) (λ e. cc)
        | inr (panel, m) ↦
            rw (m, open_fresh) (file_panel-ne-panic sha terms block escrow prior panel b)
      ]

-- `OpenAppeal` never dereferences a missing case of a sound book.
open_appeal-ne-panic :
    (sha : Sha256) (terms block escrow : Text) (bonded exclude : List Text) (prior : Text)
    (b : Book)
    → BookInv sha b
    → (open_appeal sha terms block escrow bonded exclude prior b).1 ≢ panic
unfolding open_appeal
open_appeal-ne-panic sha terms block escrow bonded exclude prior b inv =
    elim (Bool-cases (strings_trim terms == [] || escrow == [])) [
      | inl bad ↦ rw bad (λ e. cc)
      | inr good ↦ elim (Option-cases (lookup escrow b.by_escrow)) [
        | inl n ↦
            rw (good, n)
              (open_fresh-ne-panic sha (strings_trim terms) block escrow bonded exclude prior b)
        | inr (id, m) ↦
            let (c, found) = inv.indexed escrow id m in
            rw (good, m) (reopen-ne-panic id prior b c found)
      ]
    ]
