-- ===== src/Sockets/Kept.antt =====
-- The invariant of the sessions of package websocket is kept when the index shrinks, a client connects,
-- or a registration rebinds one.
use platarium_gateway_go.Common.{
  ◌≡◌, ◌≢◌, refl, sym, ◌∙◌, ap, subst, ◌⊎◌, inl, inr, true, false, ◌&&◌, not, Option, [], ◌==◌,
  arith, Bool-cases,
}
use mathlib.Core.Bool.{false≢true}
use platarium_gateway_go.Common.Int.{ℤ}
use platarium_gateway_go.Common.Text.{Text, text_eq, text_beq, text_beq_iff, text_beq-ne}
use platarium_gateway_go.Common.Maps.{set_at}
use platarium_gateway_go.Deals.Sets.{contains}
use platarium_gateway_go.Sockets.Address.{normalize_platarium_address}
use platarium_gateway_go.Sockets.Types.{Client, Server, fresh_client}
use platarium_gateway_go.Sockets.Sessions.{Prover, logged_out}
use platarium_gateway_go.Sockets.Connections.{connect}
use platarium_gateway_go.Sockets.Indexes.{Shrunk}
use platarium_gateway_go.Sockets.Binding.{Rebound}
use platarium_gateway_go.Sockets.Steps.{IsProven, IsCanonical, IsOwner, OwnerInv, SessionInv}

pub canonical-nil : normalize_platarium_address [] ≡ []
unfolding normalize_platarium_address
canonical-nil = refl

same_device : {d e : Text} → e ≢ [] → (not (e == []) && (d == e)) ≡ false → d ≢ e
same_device {d} {e} n f q = elim (Bool-cases (text_beq e [])) [
  | inl p ↦ n ((text_beq_iff e []).0 p)
  | inr p ↦ let t : text_beq d e ≡ true = (text_beq_iff d e).1 q in ground (arith, f, p, t)
]

module _ (prove : Option Prover) where
  pub Shrunk-OwnerInv : {s s' : Server} → Shrunk s s' → OwnerInv prove s → OwnerInv prove s'
  Shrunk-OwnerInv {s} {s'} h v = record {
    canonical = λ i. subst IsCanonical (sym (ap (λ o. o i) h.objects)) (v.canonical i);
    owned = λ i. subst (IsOwner prove) (sym (ap (λ o. o i) h.objects)) (v.owned i);
  }

  pub Shrunk-SessionInv : {s s' : Server} → Shrunk s s' → SessionInv prove s → SessionInv prove s'
  Shrunk-SessionInv {s} {s'} h v = record {
    indexed = λ a i n m. ap (λ c. c.address) (same i) ∙ v.indexed a i n (h.index a i m);
    devices = λ a i j n x y d.
        v.devices a i j n (h.index a i x) (h.index a j y)
          (sym (ap (λ c. c.device_id) (same i)) ∙ d ∙ ap (λ c. c.device_id) (same j));
    owners = Shrunk-OwnerInv h v.owners;
  }
    where
      same : (i : Text) → s'.objects i ≡ s.objects i
      same i = ap (λ o. o i) h.objects

  pub connect-OwnerInv :
      (id ip : Text) (at : ℤ) (s : Server) → OwnerInv prove s → OwnerInv prove (connect id ip at s)
  unfolding connect
  connect-OwnerInv id ip at s v = record {
    canonical = λ i. by_cases IsCanonical i new_canonical (v.canonical i);
    owned = λ i. by_cases (IsOwner prove) i (λ h. absurd (false≢true h)) (v.owned i);
  }
    where
      by_cases :
          (P : Client → Type 0) (i : Text)
          → P (fresh_client ip at)
          → P (s.objects i)
          → P (set_at id (fresh_client ip at) s.objects i)
      by_cases P i x y = elim (Bool-cases (text_beq id i)) [ inl p ↦ rw p x | inr p ↦ rw p y ]

      new_canonical : IsCanonical (fresh_client ip at)
      new_canonical = canonical-nil

  pub connect-SessionInv :
      (id ip : Text) (at : ℤ) (s : Server)
      → (s.objects id).address ≡ []
      → SessionInv prove s
      → SessionInv prove (connect id ip at s)
  unfolding connect
  connect-SessionInv id ip at s e v = record {
    indexed = λ a i n m. subst (λ c. c.address ≡ a) (sym (other a i n m)) (v.indexed a i n m);
    devices = λ a i j n x y d.
        v.devices a i j n x y
          (sym (ap (λ c. c.device_id) (other a i n x)) ∙ d ∙ ap (λ c. c.device_id) (other a j n y));
    owners = connect-OwnerInv id ip at s v.owners;
  }
    where
      at_cases : (i : Text) → (i ≡ id) ⊎ (set_at id (fresh_client ip at) s.objects i ≡ s.objects i)
      at_cases i = elim (Bool-cases (text_beq id i)) [
        | inl p ↦ inl (sym ((text_beq_iff id i).0 p))
        | inr p ↦ inr (rw p refl)
      ]

      other :
          (a i : Text)
          → a ≢ []
          → contains i (s.clients_by_addr a) ≡ true
          → set_at id (fresh_client ip at) s.objects i ≡ s.objects i
      other a i n m = elim (at_cases i) [
        | inl q ↦ absurd (n (sym (v.indexed a i n m) ∙ ap (λ t. (s.objects t).address) q ∙ e))
        | inr q ↦ q
      ]

  -- The client that a registration leaves behind.
  abbrev pub IsBoundAt : Text → Client → Type 0
  IsBoundAt address c =
      (c.address ≡ address) × (c.device_id ≢ []) × (c.authenticated ≡ true → IsProven prove address)

  -- What is found under an address after a registration: the client itself, or another as it was.
  found :
      {s s' : Server} {address id : Text} {c : Client}
      → Rebound s s' address id c
      → address ≢ []
      → SessionInv prove s
      → (a i : Text) → a ≢ []
      → contains i (s'.clients_by_addr a) ≡ true
      → ((i ≡ id) × (a ≡ address))
        ⊎ ((i ≢ id)
            × (s'.objects i ≡ s.objects i)
            × (contains i (s.clients_by_addr a) ≡ true)
            × (a ≡ address
                → (not (c.device_id == []) && ((s.objects i).device_id == c.device_id)) ≡ false))
  found {s} {s'} {address} {id} r n v a i na h = elim (Bool-cases (text_beq a address)) [
    | inl p ↦
        let q = (text_beq_iff a address).0 p in
        elim (r.here i (subst (λ t. contains i (s'.clients_by_addr t) ≡ true) q h)) [
          | inl e ↦ inl (e, q)
          | inr (ni, m, e, d) ↦
              inr (ni, e, subst (λ t. contains i (s.clients_by_addr t) ≡ true) (sym q) m, λ _. d)
        ]
    | inr p ↦
        let q = text_beq-ne a address p in
        let (m, k) = r.there a i q h in
        let named : (s.objects i).address ≡ a = v.indexed a i na m in
        elim (Bool-cases (text_beq i id)) [
          | inl w ↦
              let x = (text_beq_iff i id).0 w in
              let mine : (s.objects id).address ≡ a =
                ap (λ t. (s.objects t).address) (sym x) ∙ named in
              elim (k x) [
                | inl y ↦ absurd (na (sym mine ∙ y))
                | inr y ↦ absurd (y (sym mine ∙ sym (v.owners.canonical id)))
              ]
          | inr w ↦
              let x = text_beq-ne i id w in
              elim (r.others i x) [
                | inl e ↦ inr (x, e, m, λ y. absurd (q y))
                | inr (e, y) ↦ absurd (q (sym named ∙ v.indexed address i n y))
              ]
        ]
  ]

  pub Rebound-OwnerInv :
      {s s' : Server} {address id : Text} {c : Client}
      → Rebound s s' address id c
      → c.address ≡ address
      → (c.authenticated ≡ true → IsProven prove address)
      → normalize_platarium_address address ≡ address
      → OwnerInv prove s
      → OwnerInv prove s'
  Rebound-OwnerInv {s} {s'} {address} {id} {c} r named ok e v = record {
    canonical = λ i.
        every IsCanonical i (ap normalize_platarium_address named ∙ e ∙ sym named) canonical-nil
          (v.canonical i);
    owned = λ i.
        every (IsOwner prove) i (λ h. subst (IsProven prove) (sym named) (ok h))
          (λ h. absurd (false≢true h)) (v.owned i);
  }
    where
      every :
          (P : Client → Type 0) (i : Text)
          → P c
          → P (logged_out (s.objects i))
          → P (s.objects i)
          → P (s'.objects i)
      every P i x y z = elim (Bool-cases (text_beq i id)) [
        | inl w ↦
            subst (λ t. P (s'.objects t)) (sym ((text_beq_iff i id).0 w)) (subst P (sym r.self) x)
        | inr w ↦ elim (r.others i (text_beq-ne i id w)) [
          | inl q ↦ subst P (sym q) z
          | inr (q, _) ↦ subst P (sym q) y
        ]
      ]

  pub Rebound-SessionInv :
      {s s' : Server} {address id : Text} {c : Client}
      → Rebound s s' address id c
      → IsBoundAt address c
      → address ≢ []
      → normalize_platarium_address address ≡ address
      → SessionInv prove s
      → SessionInv prove s'
  Rebound-SessionInv {s} {s'} {address} {id} {c} r (named, dev, ok) n e v = record {
    indexed = λ a i na h. elim (found r n v a i na h) [
      | inl (x, y) ↦ ap (λ t. (s'.objects t).address) x ∙ ap (λ d. d.address) r.self ∙ named ∙ sym y
      | inr (_, x, m, _) ↦ ap (λ d. d.address) x ∙ v.indexed a i na m
    ];
    devices = λ a i j na h k d. elim (found r n v a i na h) [
      | inl (x, y) ↦ elim (found r n v a j na k) [
        | inl (x', _) ↦ x ∙ sym x'
        | inr (_, w, m, f) ↦ absurd (
            clash (f y) (
              sym (ap (λ t. t.device_id) w)
              ∙ sym d
              ∙ ap (λ t. (s'.objects t).device_id) x
              ∙ ap (λ t. t.device_id) r.self))
      ]
      | inr (_, w, m, f) ↦ elim (found r n v a j na k) [
        | inl (x, y) ↦ absurd (
            clash (f y) (
              sym (ap (λ t. t.device_id) w)
              ∙ d
              ∙ ap (λ t. (s'.objects t).device_id) x
              ∙ ap (λ t. t.device_id) r.self))
        | inr (_, w', m', _) ↦
            v.devices a i j na m m' (sym (ap (λ t. t.device_id) w) ∙ d ∙ ap (λ t. t.device_id) w')
      ]
    ];
    owners = Rebound-OwnerInv r named ok e v.owners;
  }
    where
      clash : {d : Text} → (not (c.device_id == []) && (d == c.device_id)) ≡ false → d ≢ c.device_id
      clash f = same_device dev f
