-- ===== src/Sockets/Queues.antt =====
-- The queue of the messages that wait for an address (internal/websocket/messaging.go).
use platarium_gateway_go.Common.{
  ℕ, zero, suc, ◌+◌, ◌-◌, ◌≤◌, ◌<◌, ◌≡◌, ◌≢◌, refl, sym, ◌∙◌, ap, List, [], ◌∷◌, ◌++◌, length,
  length-append, take, drop, take-append-drop, ltb, nat_eq, arith, Bool-cases, inl, inr,
}
use platarium_gateway_go.Common.Int.{int_eq}
use platarium_gateway_go.Common.Text.{Text, text_eq, text_beq}
use platarium_gateway_go.Common.Maps.{set_at_self, set_at_ne}
use platarium_gateway_go.Sockets.Types.{OfflineMessage, Server}
use platarium_gateway_go.Sockets.Sessions.{without_id, remove_client_from_addr}
use platarium_gateway_go.Sockets.Connections.{leave_index, forget_dead}
use platarium_gateway_go.Sockets.Messages.{capped, buffer}

-- The message is the last of at most 500 that wait for its recipient; those before it are the last of
-- those that waited, all of them where there is room; and no other recipient's messages change.
pub record Queued (m : OfflineMessage) (s s' : Server) : Type 0 where
  pub skipped : List OfflineMessage
  pub rest : List OfflineMessage
  pub before : s.offline_messages m.to ≡ skipped ++ rest
  pub after : s'.offline_messages m.to ≡ rest ++ (m ∷ [])
  pub room : length (s'.offline_messages m.to) ≤ 500
  pub complete : length (s.offline_messages m.to) < 500 → skipped ≡ []
  pub others : (a : Text) → m.to ≢ a → s'.offline_messages a ≡ s.offline_messages a

drop-append :
    (k : ℕ) (ms ns : List OfflineMessage) → k ≤ length ms → drop k (ms ++ ns) ≡ drop k ms ++ ns
drop-append zero ms ns h = refl
drop-append (suc k) [] ns h = absurd (omega (arith, h))
drop-append (suc k) (m ∷ ms) ns h = drop-append k ms ns (omega (arith, h))

length-drop : (k : ℕ) (ms : List OfflineMessage) → length (drop k ms) ≡ length ms - k
length-drop zero ms = omega arith
length-drop (suc k) [] = omega arith
length-drop (suc k) (m ∷ ms) = omega (arith, length-drop k ms)

-- The last of a queue that grows by a message.
record Shortened (old : List OfflineMessage) (m : OfflineMessage) : Type 0 where
  skipped : List OfflineMessage
  rest : List OfflineMessage
  before : old ≡ skipped ++ rest
  after : capped (old ++ (m ∷ [])) ≡ rest ++ (m ∷ [])
  room : length rest < 500
  complete : length old < 500 → skipped ≡ []

capped-Shortened : (old : List OfflineMessage) (m : OfflineMessage) → Shortened old m
unfolding capped
capped-Shortened old m = elim (Bool-cases (ltb 500 (length (old ++ (m ∷ []))))) [
  | inl e ↦
      let over : 500 < length old + 1 = ground (arith, e, length-append old (m ∷ [])) in
      record {
        skipped = take extra old;
        rest = drop extra old;
        before = sym (take-append-drop extra old);
        after = rw e (drop-append extra old (m ∷ []) (omega (arith, more)));
        room = omega (arith, more, over, length-drop extra old);
        complete = λ h. absurd (omega (arith, over, h));
      }
  | inr e ↦ record {
    skipped = [];
    rest = old;
    before = refl;
    after = rw e refl;
    room = ground (arith, e, more);
    complete = λ h. refl;
  }
]
  where
    extra : ℕ
    extra = length (old ++ (m ∷ [])) - 500

    more : length (old ++ (m ∷ [])) ≡ length old + 1
    more = length-append old (m ∷ [])

pub buffer-Queued : (m : OfflineMessage) (s : Server) → Queued m s (buffer m s)
unfolding buffer
buffer-Queued m s = record {
  skipped = v.skipped;
  rest = v.rest;
  before = v.before;
  after = queue;
  room = omega (arith, v.room, ap length queue, length-append v.rest (m ∷ []));
  complete = v.complete;
  others = λ a n. set_at_ne m.to a (capped (old ++ (m ∷ []))) s.offline_messages n;
}
  where
    old : List OfflineMessage
    old = s.offline_messages m.to

    v : Shortened old m
    v = capped-Shortened old m

    queue : (buffer m s).offline_messages m.to ≡ v.rest ++ (m ∷ [])
    queue = set_at_self m.to (capped (old ++ (m ∷ []))) s.offline_messages ∙ v.after

pub leave_index-offline_messages :
    (id : Text) (s : Server) → (leave_index id s).offline_messages ≡ s.offline_messages
unfolding remove_client_from_addr
leave_index-offline_messages id s = elim (Bool-cases (text_beq (s.objects id).address [])) [
  | inl e ↦ rw e refl
  | inr e ↦ rw e refl
]

pub forget_dead-offline_messages :
    (dead : List Text) (s : Server) → (forget_dead dead s).offline_messages ≡ s.offline_messages
unfolding forget_dead
forget_dead-offline_messages [] s = refl
forget_dead-offline_messages (id ∷ dead) s =
    let s' = leave_index id s in
    forget_dead-offline_messages dead (record s' { clients = without_id id s'.clients })
    ∙ leave_index-offline_messages id s

pub same_Queued :
    {m : OfflineMessage} {s t u : Server}
    → t.offline_messages ≡ s.offline_messages
    → Queued m t u
    → Queued m s u
same_Queued {m} {s} {t} {u} e v = record {
  skipped = v.skipped;
  rest = v.rest;
  before = ap (λ o. o m.to) (sym e) ∙ v.before;
  after = v.after;
  room = v.room;
  complete = λ h. v.complete (omega (arith, h, ap (λ o. length (o m.to)) e));
  others = λ a n. v.others a n ∙ ap (λ o. o a) e;
}
