-- ===== src/Sockets/Indexes.antt =====
-- What the changes of internal/websocket/messaging.go to the index of sessions leave in it.
use platarium_gateway_go.Common.{
  ◌≡◌, ◌≢◌, refl, sym, ◌∙◌, ap, subst, ◌⊎◌, inl, inr, Bool, true, false, ◌||◌, not, List, [], ◌∷◌,
  keep_if, arith, Bool-cases,
}
use platarium_gateway_go.Common.Text.{Text, text_eq, text_beq, text_beq_iff, text_beq-ne}
use platarium_gateway_go.Deals.Sets.{contains}
use platarium_gateway_go.Sockets.Types.{Server}
use platarium_gateway_go.Sockets.Sessions.{without_id, with_id, remove_client_from_addr}
use platarium_gateway_go.Sockets.Connections.{leave_index, forget_dead, disconnect}

pub contains-keep_if :
    (p : Text → Bool) (i : Text) (ids : List Text)
    → contains i (keep_if p ids) ≡ true
    → (p i ≡ true) × (contains i ids ≡ true)
unfolding contains keep_if
contains-keep_if p i [] h = cc
contains-keep_if p i (x ∷ ids) h = elim (Bool-cases (p x)) [
  | inr e ↦ let (a, b) = contains-keep_if p i ids (rw e at h) in (a, rw b (or_true (text_beq x i)))
  | inl e ↦ elim (Bool-cases (text_beq x i)) [
    | inl f ↦ (ap p (sym ((text_beq_iff x i).0 f)) ∙ e, rw f refl)
    | inr f ↦ let (a, b) = contains-keep_if p i ids (rw (e, f) at h) in (a, rw f b)
  ]
]
  where
    or_true : (b : Bool) → (b || true) ≡ true
    or_true true = refl
    or_true false = refl

pub contains-without_id :
    (i id : Text) (ids : List Text)
    → contains i (without_id id ids) ≡ true
    → (i ≢ id) × (contains i ids ≡ true)
unfolding without_id
contains-without_id i id ids h =
    let (a, b) = contains-keep_if (λ j. not (text_beq j id)) i ids h in
    (text_beq-ne i id (ground (arith, a)), b)

pub contains-with_id :
    (i id : Text) (ids : List Text)
    → contains i (with_id id ids) ≡ true
    → (i ≡ id) ⊎ (contains i ids ≡ true)
unfolding contains
contains-with_id i id ids h = elim (Bool-cases (contains id ids)) [
  | inl e ↦ inr (rw e at h)
  | inr e ↦ elim (Bool-cases (text_beq id i)) [
    | inl f ↦ inl (sym ((text_beq_iff id i).0 f))
    | inr f ↦ inr (rw (e, f) at h)
  ]
]

-- Every session of `s'` under an address is one of `s`, and the clients are the same.
pub record Shrunk (s s' : Server) : Type 0 where
  pub objects : s'.objects ≡ s.objects
  pub index :
      (a i : Text)
      → contains i (s'.clients_by_addr a) ≡ true
      → contains i (s.clients_by_addr a) ≡ true

pub remove_client_from_addr-index :
    (address id : Text) (s : Server) (a i : Text)
    → contains i ((remove_client_from_addr address id s).clients_by_addr a) ≡ true
    → (contains i (s.clients_by_addr a) ≡ true) × (a ≡ address → i ≢ id)
unfolding remove_client_from_addr
remove_client_from_addr-index address id s a i h = elim (Bool-cases (text_beq address a)) [
  | inl e ↦
      let p = (text_beq_iff address a).0 e in
      let (n, m) = contains-without_id i id (s.clients_by_addr address) (rw e at h) in
      (subst (λ t. contains i (s.clients_by_addr t) ≡ true) p m, λ _. n)
  | inr e ↦ (rw e at h, λ q. absurd (text_beq-ne address a e (sym q)))
]

leave_index-Shrunk : (id : Text) (s : Server) → Shrunk s (leave_index id s)
unfolding remove_client_from_addr
leave_index-Shrunk id s = elim (Bool-cases (text_beq (s.objects id).address [])) [
  | inl e ↦ rw e (record { objects = refl; index = λ a i h. h })
  | inr e ↦ rw e (record {
    objects = refl;
    index = λ a i h. (remove_client_from_addr-index (s.objects id).address id s a i h).0;
  })
]

pub disconnect-Shrunk : (id : Text) (s : Server) → Shrunk s (disconnect id s)
unfolding disconnect
disconnect-Shrunk id s = elim (Bool-cases (contains id s.clients)) [
  | inl e ↦
      let v = leave_index-Shrunk id (record s { clients = without_id id s.clients }) in
      rw e (record { objects = v.objects; index = v.index })
  | inr e ↦ rw e (record { objects = refl; index = λ a i h. h })
]

pub forget_dead-Shrunk : (dead : List Text) (s : Server) → Shrunk s (forget_dead dead s)
unfolding forget_dead
forget_dead-Shrunk [] s = record { objects = refl; index = λ a i h. h }
forget_dead-Shrunk (id ∷ dead) s =
    let s' = leave_index id s in
    let v = leave_index-Shrunk id s in
    let w = forget_dead-Shrunk dead (record s' { clients = without_id id s'.clients }) in
    record { objects = w.objects ∙ v.objects; index = λ a i h. v.index a i (w.index a i h) }
