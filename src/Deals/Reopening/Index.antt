-- ===== src/Deals/Reopening/Index.antt =====
-- The escrow index of a `Book` (internal/deals/book.go) follows its cases.
use platarium_gateway_go.Common.{
  ◌≡◌, refl, sym, ◌∙◌, true, false, none, some, [], ◌∷◌, ◌++◌, arith, ap, subst,
}
use platarium_gateway_go.Common.Text.{Text, text_eq, text_beq_iff}
use platarium_gateway_go.Common.Dict.{Dict, lookup, insert, map_values, lookup-insert_ne}
use platarium_gateway_go.Deals.Sets.{contains, Distinct}
use platarium_gateway_go.Deals.Book.{Case}
use platarium_gateway_go.Deals.Case.Keys.{keys, insert-Distinct}
use platarium_gateway_go.Deals.Case.Growth.{Extends}
use platarium_gateway_go.Deals.History.{Change, stays, puts, maps, files}

abbrev pub index_of : Dict Case → Dict Text
index_of [] = []
index_of ((id, c) ∷ d) = (c.escrow_id, id) ∷ index_of d

-- Every case is indexed by its escrow, in step with the cases, and no key stands twice.
pub record Synced (xs : Dict Case) (ix : Dict Text) : Type 0 where
  pub in_step : ix ≡ index_of xs
  pub ids : Distinct (keys xs)
  pub escrows : Distinct (keys ix)

-- No key of the second map is a key of the first.
abbrev pub Apart {ℓ} : {V : Type ℓ} → Dict V → Dict V → Type ℓ
Apart {V = V} acc d = (k : Text) → contains k (keys d) ≡ true → lookup k acc ≡ none

module _ {ℓ} {V : Type ℓ} where
  pub insert_new :
      (k : Text) (v : V) (d : Dict V) → lookup k d ≡ none → insert k v d ≡ d ++ ((k, v) ∷ [])
  unfolding lookup insert
  insert_new k v [] n = refl
  insert_new k v ((j, w) ∷ d) n = ground (arith, insert_new k v d)

  pub Apart-insert :
      (k : Text) (v : V) (acc d : Dict V)
      → contains k (keys d) ≡ false
      → Apart acc ((k, v) ∷ d)
      → Apart (insert k v acc) d
  unfolding contains
  Apart-insert k v acc d u h j m =
      lookup-insert_ne k j v acc (λ e. let t = subst (λ x. contains x (keys d) ≡ false) e u in cc)
      ∙ h j (ground arith)

  keys-insert_known :
      (k : Text) (v w : V) (d : Dict V) → lookup k d ≡ some v → keys (insert k w d) ≡ keys d
  unfolding lookup insert
  keys-insert_known k v w [] e = cc
  keys-insert_known k v w ((j, u) ∷ d) e =
      ground (arith, keys-insert_known k v w d, text_beq_iff j k)

  keys-map_values : (f : V → V) (d : Dict V) → keys (map_values f d) ≡ keys d
  unfolding map_values
  keys-map_values f [] = refl
  keys-map_values f ((j, w) ∷ d) = ap (◌∷◌ j) (keys-map_values f d)

index_of-put :
    (id : Text) (c d : Case) (xs : Dict Case)
    → lookup id xs ≡ some c
    → d.escrow_id ≡ c.escrow_id
    → index_of (insert id d xs) ≡ index_of xs
unfolding lookup insert
index_of-put id c d [] m e = cc
index_of-put id c d ((j, w) ∷ xs) m e = ground (arith, index_of-put id c d xs, text_beq_iff j id)

index_of-map_values :
    (f : Case → Case) (xs : Dict Case)
    → ((c : Case) → Extends c (f c))
    → index_of (map_values f xs) ≡ index_of xs
unfolding map_values
index_of-map_values f [] grow = refl
index_of-map_values f ((j, w) ∷ xs) grow =
    let e = (grow w).same_escrow in cc (e, index_of-map_values f xs grow)

index_of-append : (xs ys : Dict Case) → index_of (xs ++ ys) ≡ index_of xs ++ index_of ys
index_of-append [] ys = refl
index_of-append ((j, w) ∷ xs) ys = ap (◌∷◌ (w.escrow_id, j)) (index_of-append xs ys)

pub Change-Synced :
    (xs : Dict Case) (ix : Dict Text) (ys : Dict Case) (iy : Dict Text)
    → Change xs ix ys iy
    → Synced xs ix
    → Synced ys iy
Change-Synced xs ix ys iy (stays e i) s = rw (e, i) s
Change-Synced xs ix ys iy (puts id c d m x e i) s = record {
  in_step = rw (e, i) (s.in_step ∙ sym (index_of-put id c d xs m x.same_escrow));
  ids = rw (e, keys-insert_known id c d xs m) s.ids;
  escrows = rw i s.escrows;
}
Change-Synced xs ix ys iy (maps f grow e i) s = record {
  in_step = rw (e, i) (s.in_step ∙ sym (index_of-map_values f xs grow));
  ids = rw (e, keys-map_values f xs) s.ids;
  escrows = rw i s.escrows;
}
Change-Synced xs ix ys iy (files id c free new e i) s = record {
  in_step =
      rw (e, i, insert_new id c xs free, insert_new c.escrow_id id ix new, s.in_step)
        (sym (index_of-append xs ((id, c) ∷ [])));
  ids = rw e (insert-Distinct id c xs s.ids);
  escrows = rw i (insert-Distinct c.escrow_id id ix s.escrows);
}
