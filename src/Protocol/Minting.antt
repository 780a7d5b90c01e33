-- ===== src/Protocol/Minting.antt =====
-- What the gateway's markers of ownership (internal/protocol/ownership.go) prove.
use mathlib.Core.List.{reverse, reverse-append}
use platarium_gateway_go.Common.{
  ◌≡◌, refl, sym, ◌∙◌, ap, true, false, some, [], ◌∷◌, ◌++◌, ◌≢◌, ◌↔◌, Bool-cases, inl, inr,
}
use platarium_gateway_go.Common.Text.{
  Text, text_eq, text_beq, text_beq_iff, text_beq-ne, trim_space, trim_with, is_space, to_lower,
  equal_fold, equal_fold_iff, has_prefix,
}
use platarium_gateway_go.Protocol.Ownership.{
  Ownership, granted, refused, OwnershipError, owned_input, missing_authentication,
  address_required, other_owner, owned, owned_signature, resolve_authenticated_owner,
  reject_client_owned_proof, mint_owned_proof, minted, mint_owned_proof_after_resolve,
}
use platarium_gateway_go.Common.Trimming.{
  starts_well, starts_well-append, trim_with-id, trim_with-starts, trim_with-ends,
  trim_space-trim_space,
}

-- The session has proved an address, the claimed one in any letter case, and neither is a marker.
pub record Proven (claimed authenticated : Text) : Type 0 where
  pub not_empty : trim_space authenticated ≢ []
  pub same : to_lower (trim_space claimed) ≡ to_lower (trim_space authenticated)
  pub claimed_unmarked : has_prefix (trim_space claimed) owned ≡ false
  pub authenticated_unmarked : has_prefix (trim_space authenticated) owned ≡ false

granted_inj : {a b : Text} → granted a ≡ granted b → a ≡ b
granted_inj {a} e = ap (λ r. address r) e
  where
    address : Ownership → Text
    address (granted t) = t
    address (refused f) = a

refused≢granted : {a : Text} (f : OwnershipError) → refused f ≢ granted a
refused≢granted f e = cc

to_lower-nil : (t : Text) → to_lower [] ≡ to_lower t → t ≡ []
unfolding to_lower
to_lower-nil [] e = refl
to_lower-nil (x ∷ t) e = cc

pub resolve-granted :
    (claimed authenticated r : Text)
    → resolve_authenticated_owner claimed authenticated ≡ granted r
    → Proven claimed authenticated × (r ≡ trim_space authenticated)
unfolding resolve_authenticated_owner
resolve-granted claimed authenticated r h = elim (Bool-cases (has_prefix c owned)) [
  | inl e1 ↦ no owned_input (rw e1 refl)
  | inr e1 ↦ elim (Bool-cases (has_prefix a owned)) [
    | inl e2 ↦ no owned_input (rw (e1, e2) refl)
    | inr e2 ↦ elim (Bool-cases (text_beq a [])) [
      | inl e3 ↦ no missing_authentication (rw (e1, e2, e3) refl)
      | inr e3 ↦ elim (Bool-cases (text_beq c [])) [
        | inl e4 ↦ no address_required (rw (e1, e2, e3, e4) refl)
        | inr e4 ↦ elim (Bool-cases (equal_fold c a)) [
          | inl e5 ↦ (
            record {
              not_empty = text_beq-ne a [] e3;
              same = (equal_fold_iff c a).0 e5;
              claimed_unmarked = e1;
              authenticated_unmarked = e2;
            },
            granted_inj (sym h ∙ rw (e1, e2, e3, e4, e5) refl),
          )
          | inr e5 ↦ no other_owner (rw (e1, e2, e3, e4, e5) refl)
        ]
      ]
    ]
  ]
]
  where
    c : Text
    c = trim_space claimed

    a : Text
    a = trim_space authenticated

    no :
        (f : OwnershipError)
        → resolve_authenticated_owner claimed authenticated ≡ refused f
        → Proven claimed authenticated × (r ≡ trim_space authenticated)
    no f e = absurd (refused≢granted f (sym e ∙ h))

resolve-Proven :
    (claimed authenticated : Text)
    → Proven claimed authenticated
    → resolve_authenticated_owner claimed authenticated ≡ granted (trim_space authenticated)
unfolding resolve_authenticated_owner
resolve-Proven claimed authenticated p =
    let c = trim_space claimed in
    let a = trim_space authenticated in
    let filled : text_beq a [] ≡ false = elim (Bool-cases (text_beq a [])) [
      | inl e ↦ absurd (p.not_empty ((text_beq_iff a []).0 e))
      | inr e ↦ e
    ] in
    let given : text_beq c [] ≡ false = elim (Bool-cases (text_beq c [])) [
      | inl e ↦
          absurd
            (p.not_empty (to_lower-nil a (ap to_lower (sym ((text_beq_iff c []).0 e)) ∙ p.same)))
      | inr e ↦ e
    ] in
    let equal : equal_fold c a ≡ true = (equal_fold_iff c a).1 p.same in
    rw (p.claimed_unmarked, p.authenticated_unmarked, filled, given, equal) refl

mint_owned_proof-trimmed :
    (a : Text)
    → trim_space a ≢ []
    → has_prefix (trim_space a) owned ≡ false
    → mint_owned_proof (trim_space a) ≡ granted (owned ++ trim_space a)
unfolding mint_owned_proof
mint_owned_proof-trimmed a n m =
    let filled : text_beq (trim_space a) [] ≡ false =
      elim (Bool-cases (text_beq (trim_space a) [])) [
        | inl e ↦ absurd (n ((text_beq_iff (trim_space a) []).0 e))
        | inr e ↦ e
      ] in
    rw (trim_space-trim_space a, filled, m) refl

-- A marker is as the gateway wrote it once its ends are trimmed, so it is known as one.
owned-rejected :
    (a : Text) → reject_client_owned_proof (owned ++ trim_space a) ≡ some owned_signature
unfolding reject_client_owned_proof trim_space starts_well is_space
owned-rejected a = rw trimmed refl
  where
    t : Text
    t = trim_with is_space a

    trimmed : trim_with is_space (owned ++ t) ≡ owned ++ t
    trimmed =
        trim_with-id is_space (owned ++ t)
          (starts_well-append is_space owned t refl (trim_with-starts is_space a))
          (ap (starts_well is_space) (reverse-append owned t)
            ∙ starts_well-append is_space (reverse t) (reverse owned) (trim_with-ends is_space a)
                refl)

minted-granted :
    (claimed authenticated proof : Text)
    → mint_owned_proof_after_resolve claimed authenticated ≡ granted proof
    → Proven claimed authenticated × (proof ≡ owned ++ trim_space authenticated)
unfolding mint_owned_proof_after_resolve minted
minted-granted claimed authenticated proof h =
    by_owner (resolve_authenticated_owner claimed authenticated) refl
  where
    by_owner :
        (o : Ownership)
        → resolve_authenticated_owner claimed authenticated ≡ o
        → Proven claimed authenticated × (proof ≡ owned ++ trim_space authenticated)
    by_owner (refused f) e = absurd (refused≢granted f (sym (ap minted e) ∙ h))
    by_owner (granted r) e =
        let known = resolve-granted claimed authenticated r e in
        let made : mint_owned_proof r ≡ granted proof = sym (ap minted e) ∙ h in
        (
          known.0,
          granted_inj (
              sym made
              ∙ ap mint_owned_proof known.1
              ∙ mint_owned_proof-trimmed authenticated known.0.not_empty
                  known.0.authenticated_unmarked),
        )

minted-Proven :
    (claimed authenticated : Text)
    → Proven claimed authenticated
    → mint_owned_proof_after_resolve claimed authenticated
      ≡ granted (owned ++ trim_space authenticated)
unfolding mint_owned_proof_after_resolve minted
minted-Proven claimed authenticated p =
    ap minted (resolve-Proven claimed authenticated p)
    ∙ mint_owned_proof-trimmed authenticated p.not_empty p.authenticated_unmarked

-- MintOwnedProofAfterResolve mints a proof exactly where the session has proved an address that is not
-- empty, the claimed address is that one but for letter case and the spaces around it, and neither
-- begins with the marker; the proof is then the marker and the proved address, and
-- RejectClientOwnedProof refuses it from a client.
pub mint_owned_proof_after_resolve_iff :
    (claimed authenticated proof : Text)
    → ((mint_owned_proof_after_resolve claimed authenticated ≡ granted proof)
        ↔ (Proven claimed authenticated × (proof ≡ owned ++ trim_space authenticated)))
      × (mint_owned_proof_after_resolve claimed authenticated ≡ granted proof
          → reject_client_owned_proof proof ≡ some owned_signature)
mint_owned_proof_after_resolve_iff claimed authenticated proof = (
  (
    λ h. minted-granted claimed authenticated proof h,
    λ k. minted-Proven claimed authenticated k.0 ∙ ap granted (sym k.1),
  ),
  λ h.
      ap reject_client_owned_proof (minted-granted claimed authenticated proof h).1
      ∙ owned-rejected authenticated,
)
