-- ===== src/Protocol/Ownership.antt =====
-- internal/protocol/ownership.go, with an error as a value.
use platarium_gateway_go.Common.{◌||◌, not, Option, none, some, [], ◌++◌, if◌then◌else◌, ◌==◌}
use platarium_gateway_go.Common.Text.{
  Text, text, text_eq, text_beq, trim_space, equal_fold, has_prefix,
}

pub data OwnershipError : Type 0 where
  owned_input : OwnershipError
  missing_authentication : OwnershipError
  address_required : OwnershipError
  other_owner : OwnershipError
  owned_signature : OwnershipError
  missing_owner : OwnershipError
  owned_owner : OwnershipError

-- `(string, error)`
pub data Ownership : Type 0 where
  granted : Text → Ownership
  refused : OwnershipError → Ownership

-- The marker of a proof that the gateway made.
abbrev pub owned : Text
owned = text "owned:"

unfoldable pub resolve_authenticated_owner : Text → Text → Ownership
unfolding trim_space has_prefix text_beq equal_fold
resolve_authenticated_owner claimed authenticated =
    let c = trim_space claimed in
    let a = trim_space authenticated in
    if has_prefix c owned || has_prefix a owned
    then refused owned_input
    else if a == []
    then refused missing_authentication
    else if c == []
    then refused address_required
    else if not (equal_fold c a)
    then refused other_owner
    else granted a

unfoldable pub reject_client_owned_proof : Text → Option OwnershipError
unfolding trim_space has_prefix
reject_client_owned_proof signature =
    if has_prefix (trim_space signature) owned then some owned_signature else none

unfoldable pub mint_owned_proof : Text → Ownership
unfolding trim_space has_prefix text_beq
mint_owned_proof verified_owner =
    let v = trim_space verified_owner in
    if v == []
    then refused missing_owner
    else if has_prefix v owned
    then refused owned_owner
    else granted (owned ++ v)

unfoldable pub minted : Ownership → Ownership
unfolding mint_owned_proof
minted (refused e) = refused e
minted (granted verified) = mint_owned_proof verified

unfoldable pub mint_owned_proof_after_resolve : Text → Text → Ownership
unfolding resolve_authenticated_owner minted
mint_owned_proof_after_resolve claimed authenticated =
    minted (resolve_authenticated_owner claimed authenticated)
