-- ===== src/Sockets/Delivery.antt =====
-- What becomes of a direct message (internal/websocket/messaging.go).
use platarium_gateway_go.Common.{
  ◌≡◌, ◌≢◌, refl, sym, ◌∙◌, ap, ◌⊎◌, subst, ◌&&◌, Bool, true, false, ◌||◌, not, Option, List, [],
  ◌∷◌, keep_if, length, ltb, leb, if◌then◌else◌, ◌==◌, nat_eq, arith, Bool-cases, inl, inr,
}
use platarium_gateway_go.Common.Int.{ℤ, int_eq}
use platarium_gateway_go.Common.Text.{Text, text_eq, text_beq, text_beq_iff, text_beq-ne}
use platarium_gateway_go.Contacts.Types.{Store}
use platarium_gateway_go.Deals.Sets.{contains}
use platarium_gateway_go.Sockets.Address.{normalize_platarium_address}
use platarium_gateway_go.Sockets.Types.{OfflineMessage, Server}
use platarium_gateway_go.Sockets.Connections.{forget_dead, fan_out_json}
use platarium_gateway_go.Sockets.Messages.{
  allow_group_protocol_send, kept_hits, Sent, refused, delivered, kept, recipients_of, is_free,
  mirrored, after_fan_out, deliver, DirectMessage, is_group, message_of, send_allowed,
  handle_direct_message, max_direct_message_text_bytes,
}
use platarium_gateway_go.Sockets.Queues.{
  Queued, buffer-Queued, same_Queued, forget_dead-offline_messages,
}

-- The sender has an address, and the message is for a group or free between the two.
abbrev pub IsPassed : Option Store → Text → DirectMessage → Type 0
IsPassed ce from d =
    (from ≢ [])
    × ((is_group d ≡ true) ⊎ (is_free ce from (normalize_platarium_address d.to) ≡ true))

-- The sessions that a message to an address can be written to.
abbrev pub is_reached : (Text → Bool) → Text → Server → Text → Bool
is_reached alive address s i = alive i && contains i (s.clients_by_addr address)

-- A message to another address is written to the sender's other sessions that can be written to.
abbrev pub Mirrored : (Text → Bool) → Text → OfflineMessage → Server → List Text → Type 0
Mirrored alive sender m s own =
    (i : Text)
    → contains i own ≡ (
        not (m.from == m.to)
        && (alive i && (not (i == sender) && contains i (s.clients_by_addr m.from))))

-- What holds of the answer to a direct message.
abbrev pub Outcome :
    Option Store
    → (Text → Bool)
    → Text
    → OfflineMessage
    → DirectMessage
    → Server
    → Server
    → Sent
    → Type 0
Outcome ce alive sender m d s s' (refused e) = s'.offline_messages ≡ s.offline_messages
Outcome ce alive sender m d s s' (delivered ids own) =
    IsPassed ce m.from d
    × (ids ≢ [])
    × ((i : Text) → contains i ids ≡ is_reached alive m.to s i)
    × Mirrored alive sender m s' own
    × (s'.offline_messages ≡ s.offline_messages)
Outcome ce alive sender m d s s' (kept routed) =
    IsPassed ce m.from d × Queued m s s' × ((i : Text) → is_reached alive m.to s i ≡ false)

contains-keep_if :
    (p : Text → Bool) (i : Text) (ids : List Text)
    → contains i (keep_if p ids) ≡ (p i && contains i ids)
unfolding keep_if contains
contains-keep_if p i [] = ground arith
contains-keep_if p i (j ∷ ids) = elim (Bool-cases (text_beq j i)) [
  | inl e ↦
      let q = (text_beq_iff j i).0 e in
      elim (Bool-cases (p j)) [
        | inl f ↦ rw (f, e, subst (λ k. p k ≡ true) q f) refl
        | inr f ↦ rw (f, e, contains-keep_if p i ids, subst (λ k. p k ≡ false) q f) refl
      ]
  | inr e ↦ elim (Bool-cases (p j)) [
    | inl f ↦ rw (f, e) (contains-keep_if p i ids)
    | inr f ↦ rw (f, e) (contains-keep_if p i ids)
  ]
]

mirrored-Mirrored :
    (alive : Text → Bool) (sender : Text) (m : OfflineMessage) (s : Server)
    → Mirrored alive sender m s (mirrored alive sender m s)
unfolding mirrored contains
mirrored-Mirrored alive sender m s i = elim (Bool-cases (text_beq m.from m.to)) [
  | inl e ↦ rw e refl
  | inr e ↦
      let q =
        contains-keep_if (λ id. alive id && not (id == sender)) i (s.clients_by_addr m.from) in
      rw e (q ∙ both (alive i) (not (i == sender)) (contains i (s.clients_by_addr m.from)))
]
  where
    both : (a b c : Bool) → ((a && b) && c) ≡ (a && (b && c))
    both a b c = ground arith

after_fan_out-Outcome :
    (ce : Option Store) (alive : Text → Bool) (sender : Text) (m : OfflineMessage)
    (d : DirectMessage) (s s' : Server) (ids : List Text)
    → IsPassed ce m.from d
    → ((i : Text) → contains i ids ≡ is_reached alive m.to s i)
    → s'.offline_messages ≡ s.offline_messages
    → let r = after_fan_out (mirrored alive sender m) m (s', ids) in
      Outcome ce alive sender m d s r.0 r.1
unfolding contains
after_fan_out-Outcome ce alive sender m d s s' [] p h e =
    (p, same_Queued e (buffer-Queued m s'), λ i. sym (h i))
after_fan_out-Outcome ce alive sender m d s s' (i ∷ ids) p h e =
    (p, (λ q. cc), h, mirrored-Mirrored alive sender m s', e)

-- The waiting messages and the index of sessions are the same.
record Same (s t : Server) : Type 0 where
  messages : t.offline_messages ≡ s.offline_messages
  index : t.clients_by_addr ≡ s.clients_by_addr

allow_group_protocol_send-Same :
    (from : Text) (now : ℤ) (s : Server) → Same s (allow_group_protocol_send from now s).0
unfolding allow_group_protocol_send
allow_group_protocol_send-Same from now s =
    elim (Bool-cases (
      leb 120
        (length (kept_hits now (s.group_protocol_hits (normalize_platarium_address from)))))) [
          | inl e ↦ rw e (record { messages = refl; index = refl })
          | inr e ↦ rw e (record { messages = refl; index = refl })
        ]

-- Where no recipient is found, the address has no session.
no_recipients :
    (raw i : Text) (s : Server)
    → (length (recipients_of raw s) == 0) ≡ true
    → contains i (s.clients_by_addr (normalize_platarium_address raw)) ≡ false
unfolding recipients_of contains
no_recipients raw i s h =
    elim (Bool-cases (length (s.clients_by_addr (normalize_platarium_address raw)) == 0)) [
      | inl e ↦ none_in (s.clients_by_addr (normalize_platarium_address raw)) e
      | inr e ↦ absurd (false-ne (sym e ∙ (rw e at h)))
    ]
  where
    none_in : (ids : List Text) → (length ids == 0) ≡ true → contains i ids ≡ false
    none_in [] e = refl
    none_in (j ∷ ids) e = ground (arith, e)

    false-ne : false ≡ true → ⊥
    false-ne e = cc (e)

deliver-Outcome :
    (ce : Option Store) (alive : Text → Bool) (sender raw : Text) (m : OfflineMessage)
    (d : DirectMessage) (s t : Server)
    → m.to ≡ normalize_platarium_address raw
    → Same s t
    → IsPassed ce m.from d
    → let r = deliver alive sender raw m t in Outcome ce alive sender m d s r.0 r.1
unfolding deliver fan_out_json
deliver-Outcome ce alive sender raw m d s t q e p =
    elim (Bool-cases (length (recipients_of raw t) == 0)) [
      | inl f ↦
          rw f (p, same_Queued e.messages (buffer-Queued m t), λ i. sym (found i) ∙ unreached i f)
      | inr f ↦ rw f (
          after_fan_out-Outcome ce alive sender m d s (forget_dead dead t)
            (keep_if alive (t.clients_by_addr m.to)) p
            (λ i. contains-keep_if alive i (t.clients_by_addr m.to) ∙ found i)
            (forget_dead-offline_messages dead t ∙ e.messages))
    ]
  where
    dead : List Text
    dead = keep_if (λ id. not (alive id)) (t.clients_by_addr m.to)

    found : (i : Text) → is_reached alive m.to t i ≡ is_reached alive m.to s i
    found i = ap (λ o. alive i && contains i (o m.to)) e.index

    both : (a b : Bool) → b ≡ false → (a && b) ≡ false
    both a b h = ground (arith, h)

    unreached :
        (i : Text) → (length (recipients_of raw t) == 0) ≡ true → is_reached alive m.to t i ≡ false
    unreached i f =
        let g = ap (λ a. contains i (t.clients_by_addr a)) q ∙ no_recipients raw i t f in
        both (alive i) (contains i (t.clients_by_addr m.to)) g

send_allowed-Outcome :
    (ce : Option Store) (alive : Text → Bool) (now : ℤ) (sender from : Text) (d : DirectMessage)
    (s : Server) (r : Server × Bool)
    → from ≢ []
    → Same s r.0
    → let q = send_allowed ce alive now sender from d r in
      Outcome ce alive sender (message_of now from d) d s q.0 q.1
unfolding send_allowed
send_allowed-Outcome ce alive now sender from d s (t, false) n e = e.messages
send_allowed-Outcome ce alive now sender from d s (t, true) n e = elim (Bool-cases (is_group d)) [
  | inl f ↦
      rw f (deliver-Outcome ce alive sender d.to (message_of now from d) d s t refl e (n, inl f))
  | inr f ↦ elim (Bool-cases (is_free ce from (normalize_platarium_address d.to))) [
    | inl g ↦
        rw (f, g)
          (deliver-Outcome ce alive sender d.to (message_of now from d) d s t refl e (n, inr g))
    | inr g ↦ rw (f, g) e.messages
  ]
]

-- A direct message that is not refused has a sender with an address, and is for a group or free between
-- the two addresses. Where a session under the recipient's address can be written to, it is written to all
-- of those and no other of that address, and, unless the two addresses are one, to each other session
-- under the sender's address that can be written to. Where there is none, it is the last of at most 500
-- messages that wait for the recipient, before which those stand that waited, all where there is room, and
-- else the last of them. No other message changes that waits; a message that is refused or written
-- changes none.
pub handle_direct_message-Outcome :
    (ce : Option Store) (alive : Text → Bool) (now : ℤ) (sender : Text) (d : DirectMessage)
    (s : Server)
    → let r = handle_direct_message ce alive now sender d s in
      Outcome ce alive sender (message_of now (s.objects sender).address d) d s r.0 r.1
unfolding handle_direct_message
handle_direct_message-Outcome ce alive now sender d s =
    elim (Bool-cases (text_beq d.to [] || text_beq d.content [])) [
      | inl e ↦ rw e refl
      | inr e ↦ elim (Bool-cases (ltb max_direct_message_text_bytes (length d.content))) [
        | inl f ↦ rw (e, f) refl
        | inr f ↦ elim (Bool-cases (text_beq from [])) [
          | inl g ↦ rw (e, f, g) refl
          | inr g ↦
              rw (e, f, g)
                (send_allowed-Outcome ce alive now sender from d s counted (text_beq-ne from [] g)
                  counted_Same)
        ]
      ]
    ]
  where
    from : Text
    from = (s.objects sender).address

    counted : Server × Bool
    counted = if is_group d then allow_group_protocol_send from now s else (s, true)

    counted_Same : Same s counted.0
    counted_Same = elim (Bool-cases (is_group d)) [
      | inl e ↦ rw e (allow_group_protocol_send-Same from now s)
      | inr e ↦ rw e (record { messages = refl; index = refl })
    ]
