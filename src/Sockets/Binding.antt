-- ===== src/Sockets/Binding.antt =====
-- What `bindClientRegister` of internal/websocket/messaging.go does to the clients and their index.
use platarium_gateway_go.Common.{
  ◌≡◌, ◌≢◌, refl, sym, ◌∙◌, ap, subst, ◌⊎◌, inl, inr, Bool, true, false, ◌&&◌, not, List, [],
  keep_if, ◌==◌, arith, Bool-cases,
}
use platarium_gateway_go.Common.Text.{
  Text, text_eq, text_beq, text_beq_iff, text_beq-ne, text_beq_refl,
}
use platarium_gateway_go.Common.Maps.{Table, set_at, set_at_self, set_at_ne}
use platarium_gateway_go.Deals.Sets.{contains}
use platarium_gateway_go.Sockets.Address.{normalize_platarium_address}
use platarium_gateway_go.Sockets.Types.{Client, Server, Register}
use platarium_gateway_go.Sockets.Sessions.{
  with_id, remove_client_from_addr, add_client_to_addr, is_replaced, logged_out, leave_address,
  bind_session, bound_client,
}
use platarium_gateway_go.Sockets.Indexes.{
  contains-keep_if, contains-with_id, remove_client_from_addr-index,
}

-- The client `id` is `c` now and has a session under `address`, and the other clients are as they
-- were, but that those under `address` with its device are logged out.
pub record Rebound (s s' : Server) (address id : Text) (c : Client) : Type 0 where
  pub self : s'.objects id ≡ c
  pub others :
      (j : Text)
      → j ≢ id
      → (s'.objects j ≡ s.objects j)
        ⊎ ((s'.objects j ≡ logged_out (s.objects j))
            × (contains j (s.clients_by_addr address) ≡ true))
  pub here :
      (i : Text)
      → contains i (s'.clients_by_addr address) ≡ true
      → (i ≡ id)
        ⊎ ((i ≢ id)
            × (contains i (s.clients_by_addr address) ≡ true)
            × (s'.objects i ≡ s.objects i)
            × ((not (c.device_id == []) && ((s.objects i).device_id == c.device_id)) ≡ false))
  pub there :
      (a i : Text)
      → a ≢ address
      → contains i (s'.clients_by_addr a) ≡ true
      → (contains i (s.clients_by_addr a) ≡ true)
        × (i ≡ id
            → ((s.objects id).address ≡ [])
              ⊎ (a ≢ normalize_platarium_address (s.objects id).address))

-- A client that moves to another address is not left under the canonical form of the old one.
record Left (s s' : Server) (address id : Text) : Type 0 where
  objects : s'.objects ≡ s.objects
  index :
      (a i : Text)
      → contains i (s'.clients_by_addr a) ≡ true
      → (contains i (s.clients_by_addr a) ≡ true)
        × (a ≢ address
            → i ≡ id
            → ((s.objects id).address ≡ [])
              ⊎ (a ≢ normalize_platarium_address (s.objects id).address))

leave_address-Left :
    (address id : Text) (s : Server) → Left s (leave_address address id s) address id
unfolding leave_address
leave_address-Left address id s = elim (Bool-cases (text_beq (s.objects id).address [])) [
  | inl e ↦ rw e (record {
    objects = refl;
    index = λ a i h. (h, λ _ _. inl ((text_beq_iff (s.objects id).address []).0 e));
  })
  | inr e ↦
      elim (Bool-cases (text_beq (normalize_platarium_address (s.objects id).address) address)) [
        | inl f ↦
            let p =
              (text_beq_iff (normalize_platarium_address (s.objects id).address) address).0 f in
            rw (e, f) (record { objects = refl; index = λ a i h. (h, λ n _. inr (λ q. n (q ∙ p))) })
        | inr f ↦
            rw (e, f)
              (record {
                objects = removed_objects (normalize_platarium_address (s.objects id).address);
                index = λ a i h.
                    let (m, n) =
                      remove_client_from_addr-index
                        (normalize_platarium_address (s.objects id).address) id s a i h in
                    (m, λ _ q. inr (λ p. n p q));
              })
      ]
]
  where
    removed_objects : (t : Text) → (remove_client_from_addr t id s).objects ≡ s.objects
    removed_objects t = refl

-- What `addClientToAddrLocked` does.
record Added (s s' : Server) (address id : Text) : Type 0 where
  self : s'.objects id ≡ s.objects id
  others :
      (j : Text)
      → (s'.objects j ≡ s.objects j)
        ⊎ ((s'.objects j ≡ logged_out (s.objects j))
            × (contains j (s.clients_by_addr address) ≡ true))
  here :
      (i : Text)
      → contains i (s'.clients_by_addr address) ≡ true
      → (i ≡ id)
        ⊎ ((i ≢ id)
            × (contains i (s.clients_by_addr address) ≡ true)
            × (s'.objects i ≡ s.objects i)
            × ((not ((s.objects id).device_id == [])
                  && ((s.objects i).device_id == (s.objects id).device_id))
                ≡ false))
  there :
      (a i : Text)
      → a ≢ address
      → contains i (s'.clients_by_addr a) ≡ true
      → contains i (s.clients_by_addr a) ≡ true

unreplaced_self : (objects : Table Client) (id : Text) → is_replaced objects id id ≡ false
unreplaced_self objects id = ground (arith, text_beq_refl id)

unreplaced_other : (a b c : Bool) → not (a && (b && not c)) ≡ true → c ≡ false → (a && b) ≡ false
unreplaced_other a b c h e = ground arith

add_client_to_addr-Added :
    (address id : Text) (s : Server) → Added s (add_client_to_addr address id s) address id
unfolding add_client_to_addr
add_client_to_addr-Added address id s = record {
  self = elim (Bool-cases (contains id m)) [
    | inl e ↦ rw (e, unreplaced_self s.objects id) refl
    | inr e ↦ rw e refl
  ];
  others = λ j. elim (Bool-cases (contains j m)) [
    | inl e ↦ elim (Bool-cases (is_replaced s.objects id j)) [
      | inl f ↦ inr (rw (e, f) refl, e)
      | inr f ↦ inl (rw (e, f) refl)
    ]
    | inr e ↦ inl (rw e refl)
  ];
  here = λ i h. elim (Bool-cases (text_beq i id)) [
    | inl e ↦ inl ((text_beq_iff i id).0 e)
    | inr e ↦
        let n = text_beq-ne i id e in
        let (x, y) = kept i n (rw (text_beq_refl address) at h) in
        let f : is_replaced s.objects id i ≡ false = unnot (is_replaced s.objects id i) x in
        inr (
          n,
          y,
          rw (y, f) refl,
          unreplaced_other (not (text_beq (s.objects id).device_id []))
              (text_beq (s.objects i).device_id (s.objects id).device_id) (text_beq i id) x e,
        )
  ];
  there = λ a i n h.
      subst (λ ids. contains i ids ≡ true)
        (set_at_ne address a (with_id id (keep_if (λ j. not (is_replaced s.objects id j)) m))
          s.clients_by_addr (λ q. n (sym q)))
        h;
}
  where
    m : List Text
    m = s.clients_by_addr address

    unnot : (b : Bool) → not b ≡ true → b ≡ false
    unnot b h = ground arith

    kept :
        (i : Text)
        → i ≢ id
        → contains i (with_id id (keep_if (λ j. not (is_replaced s.objects id j)) m)) ≡ true
        → (not (is_replaced s.objects id i) ≡ true) × (contains i m ≡ true)
    kept i n h =
        elim (contains-with_id i id (keep_if (λ j. not (is_replaced s.objects id j)) m) h) [
          | inl q ↦ absurd (n q)
          | inr k ↦ contains-keep_if (λ j. not (is_replaced s.objects id j)) i m k
        ]

pub bind_session-Rebound :
    (authed : Bool) (address id : Text) (msg : Register) (s : Server)
    → Rebound s
        (bind_session authed address id msg s)
        address
        id
        (bound_client authed address id msg (s.objects id))
unfolding bind_session
bind_session-Rebound authed address id msg s = record {
  self = added.self ∙ set_at_self id c s1.objects ∙ same_client;
  others = λ j n. elim (added.others j) [
    | inl e ↦ inl (e ∙ other j n)
    | inr (e, m) ↦ inr (e ∙ ap logged_out (other j n), (left.index address j m).0)
  ];
  here = λ i h. elim (added.here i h) [
    | inl q ↦ inl q
    | inr (n, m, e, d) ↦ inr (
      n,
      (left.index address i m).0,
      e ∙ other i n,
      sym (ap (λ x. not (device == []) && (x.device_id == device)) (other i n))
          ∙ sym (
              ap (λ x. not (x.device_id == []) && ((s2.objects i).device_id == x.device_id))
                (set_at_self id c s1.objects ∙ same_client))
          ∙ d,
    )
  ];
  there = λ a i n h. let (m, k) = left.index a i (added.there a i n h) in (m, k n);
}
  where
    s1 : Server
    s1 = leave_address address id s

    c : Client
    c = bound_client authed address id msg (s1.objects id)

    s2 : Server
    s2 = record s1 { objects = set_at id c s1.objects }

    left : Left s s1 address id
    left = leave_address-Left address id s

    added : Added s2 (add_client_to_addr address id s2) address id
    added = add_client_to_addr-Added address id s2

    same_client : c ≡ bound_client authed address id msg (s.objects id)
    same_client = ap (λ o. bound_client authed address id msg (o id)) left.objects

    device : Text
    device = (bound_client authed address id msg (s.objects id)).device_id

    other : (j : Text) → j ≢ id → s2.objects j ≡ s.objects j
    other j n = set_at_ne id j c s1.objects (λ q. n (sym q)) ∙ ap (λ o. o j) left.objects
