-- ===== src/Protocol/Tests.antt =====
-- Runs of internal/protocol/ownership.go, and an instance of its theorem.
use platarium_gateway_go.Common.{◌≡◌, refl, some, ◌++◌, ◌↔◌}
use platarium_gateway_go.Common.Text.{text, trim_space}
use platarium_gateway_go.Protocol.Ownership.{
  granted, refused, owned, owned_input, owned_signature, other_owner, reject_client_owned_proof,
  mint_owned_proof_after_resolve,
}
use platarium_gateway_go.Protocol.Minting.{Proven, mint_owned_proof_after_resolve_iff}

any_case :
    mint_owned_proof_after_resolve (text " PxAbC ") (text "pxabc") ≡ granted (text "owned:pxabc")
unfolding mint_owned_proof_after_resolve
any_case = refl

another_owner :
    mint_owned_proof_after_resolve (text "PxClaim") (text "PxOther") ≡ refused other_owner
unfolding mint_owned_proof_after_resolve
another_owner = refl

forged : mint_owned_proof_after_resolve (text "PxA") (text "owned:PxA") ≡ refused owned_input
unfolding mint_owned_proof_after_resolve
forged = refl

mint_owned_proof_after_resolve_iff_example :
    ((mint_owned_proof_after_resolve (text " PxAbC ") (text "pxabc") ≡ granted (text "owned:pxabc"))
      ↔ (Proven (text " PxAbC ") (text "pxabc")
          × (text "owned:pxabc" ≡ owned ++ trim_space (text "pxabc"))))
    × (mint_owned_proof_after_resolve (text " PxAbC ") (text "pxabc") ≡ granted (text "owned:pxabc")
        → reject_client_owned_proof (text "owned:pxabc") ≡ some owned_signature)
mint_owned_proof_after_resolve_iff_example =
    mint_owned_proof_after_resolve_iff (text " PxAbC ") (text "pxabc") (text "owned:pxabc")
