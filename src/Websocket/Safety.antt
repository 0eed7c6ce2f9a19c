-- ===== src/Websocket/Safety.antt =====
-- The channels and the registrations of the hub (internal/websocket/hub.go), event by event.
use vaultflix.Base.{
  ℕ, ◌+◌, ◌≤◌, Str, Bool, true, false, not, ◌==◌, if◌then◌else◌, some, List, [], ◌∷◌, ◌++◌, ◌≡◌,
  ◌≢◌, arith, refl, ap, ◌∙◌, Bool-cases, All, inl, inr,
}
use vaultflix.Websocket.{
  Client, Channel, Hub, clients_of, set_clients, delete_user, without, has_client, channel_of,
  set_channel, close, put_rest, remove_client, send, send_all, remove_all, deliver_to_clients,
  deliver_to_user, users, broadcast_loop, Event, handle,
}

abbrev pub one_if : Bool → ℕ
one_if true = 1
one_if false = 0

-- how often a connection stands in a slice, and in the whole registry
unfoldable pub count_in : ℕ → List Client → ℕ
count_in k [] = 0
count_in k (c ∷ cs) = one_if (c.key == k) + count_in k cs

unfoldable pub count : ℕ → List (Str × List Client) → ℕ
count k [] = 0
count k ((u, cs) ∷ m) = count_in k cs + count k m

unfoldable pub is_open : ℕ → List Channel → Bool
is_open k [] = false
is_open k (ch ∷ chs) = if ch.key == k then not ch.closed else is_open k chs

count-set_clients :
    (k : ℕ) (u : Str) (cs : List Client) (m : List (Str × List Client))
    → count k (set_clients u cs m) + count_in k (clients_of u m) ≡ count k m + count_in k cs
unfolding count count_in set_clients clients_of
count-set_clients k u cs [] = ground arith
count-set_clients k u cs ((v, ds) ∷ m) = ground (arith, count-set_clients k u cs m)

count-delete_user :
    (k : ℕ) (u : Str) (m : List (Str × List Client))
    → count k (delete_user u m) + count_in k (clients_of u m) ≤ count k m
unfolding count count_in delete_user clients_of
count-delete_user k u [] = ground arith
count-delete_user k u ((v, ds) ∷ m) = ground (arith, count-delete_user k u m)

count_in-without :
    (k key : ℕ) (cs : List Client)
    → has_client key cs ≡ true
    → count_in k (without key cs) + one_if (k == key) ≡ count_in k cs
unfolding count_in without has_client
count_in-without k key [] h = cc
count_in-without k key (c ∷ cs) h = ground (arith, count_in-without k key cs)

has_client-count_in : (key : ℕ) (cs : List Client) → has_client key cs ≡ true → 1 ≤ count_in key cs
unfolding count_in has_client
has_client-count_in key [] h = cc
has_client-count_in key (c ∷ cs) h = ground (arith, has_client-count_in key cs)

count_in-le-count :
    (k : ℕ) (u : Str) (m : List (Str × List Client)) → count_in k (clients_of u m) ≤ count k m
unfolding count count_in clients_of
count_in-le-count k u [] = ground arith
count_in-le-count k u ((v, cs) ∷ m) = ground (arith, count_in-le-count k u m)

count-put_rest :
    (k : ℕ) (u : Str) (cs : List Client) (m : List (Str × List Client))
    → count k (put_rest u cs m) + count_in k (clients_of u m) ≤ count k m + count_in k cs
unfolding put_rest
count-put_rest k u [] m = omega (arith, count-delete_user k u m)
count-put_rest k u (c ∷ cs) m = omega (arith, count-set_clients k u (c ∷ cs) m)

channel_of_open :
    (k : ℕ) (chs : List Channel)
    → is_open k chs ≡ true
    → (ch : Channel) × (channel_of k chs ≡ some ch) × (ch.closed ≡ false) × (ch.key ≡ k)
unfolding is_open channel_of
channel_of_open k [] h = cc
channel_of_open k (ch ∷ chs) h = elim (Bool-cases (ch.key == k)) [
  | inl e ↦ (ch, rw e, ground arith, ground arith)
  | inr e ↦
      let (x, found, opened, key) = channel_of_open k chs (ground arith) in
      (x, rw e found, opened, key)
]

is_open-channel_of :
    (k : ℕ) (ch : Channel) (chs : List Channel)
    → channel_of k chs ≡ some ch
    → is_open k chs ≡ not ch.closed
unfolding is_open channel_of
is_open-channel_of k ch [] h = cc
is_open-channel_of k ch (x ∷ chs) h = ground (arith, is_open-channel_of k ch chs)

is_open-set_channel_ne :
    (k : ℕ) (ch : Channel) (chs : List Channel)
    → k ≢ ch.key
    → is_open k (set_channel ch chs) ≡ is_open k chs
unfolding is_open set_channel
is_open-set_channel_ne k ch [] h = refl
is_open-set_channel_ne k ch (x ∷ chs) h = ground (arith, is_open-set_channel_ne k ch chs)

is_open-set_channel_self :
    (ch x : Channel) (chs : List Channel)
    → channel_of ch.key chs ≡ some x
    → is_open ch.key (set_channel ch chs) ≡ not ch.closed
unfolding is_open set_channel channel_of
is_open-set_channel_self ch x [] h = cc
is_open-set_channel_self ch x (y ∷ chs) h = ground (arith, is_open-set_channel_self ch x chs)

-- Closing an open channel is no fault, and closes no other.
close_lem :
    (key : ℕ) (h : Hub)
    → is_open key h.channels ≡ true
    → ((close key h).panicked ≡ h.panicked)
      × ((close key h).clients ≡ h.clients)
      × ((k : ℕ) → k ≢ key → is_open k (close key h).channels ≡ is_open k h.channels)
unfolding close
close_lem key h o =
    let (ch, found, opened, same) = channel_of_open key h.channels o in
    (
      ground arith,
      ground arith,
      λ k n. ground (arith, is_open-set_channel_ne k (record ch { closed = true }) h.channels),
    )

sent :
    (k key : ℕ) (msg : Str) (h : Hub) (ch : Channel)
    → channel_of key h.channels ≡ some ch
    → ch.closed ≡ false
    → ch.key ≡ key
    → is_open k (send key msg h).0.channels ≡ is_open k h.channels
unfolding send
sent k key msg h ch found opened same = elim (Bool-cases (k == key)) [
  | inl e ↦
      let ch' = record ch { buffer = ch.buffer ++ msg ∷ [] } in
      let eq : k ≡ key = ground arith in
      ground (arith, is_open-set_channel_self ch' ch h.channels, is_open-channel_of k ch h.channels)
  | inr e ↦
      ground
        (arith, is_open-set_channel_ne k (record ch { buffer = ch.buffer ++ msg ∷ [] }) h.channels)
]

-- A send on an open channel is no fault, and leaves every channel open or closed as it was.
send_lem :
    (key : ℕ) (msg : Str) (h : Hub)
    → is_open key h.channels ≡ true
    → ((send key msg h).0.panicked ≡ h.panicked)
      × ((send key msg h).0.clients ≡ h.clients)
      × ((k : ℕ) → is_open k (send key msg h).0.channels ≡ is_open k h.channels)
unfolding send
send_lem key msg h o =
    let (ch, found, opened, same) = channel_of_open key h.channels o in
    (ground arith, ground arith, λ k. sent k key msg h ch found opened same)

-- No fault has happened; a connection is registered at most once; the channel of a registered
-- connection is open.
pub record Safe (h : Hub) : Type 0 where
  pub calm : h.panicked ≡ false
  pub once : (k : ℕ) → count k h.clients ≤ 1
  pub opened : (k : ℕ) → 1 ≤ count k h.clients → is_open k h.channels ≡ true

module _ (c : Client) (h : Hub) (s : Safe h)
    (here : has_client c.key (clients_of c.user_id h.clients) ≡ true) where
  -- the hub before the close
  unlisted : Hub
  unlisted = record h {
    clients = put_rest c.user_id (without c.key (clients_of c.user_id h.clients)) h.clients;
  }

  count-unlisted : (k : ℕ) → count k unlisted.clients + one_if (k == c.key) ≤ count k h.clients
  unfolding unlisted
  count-unlisted k = omega (
    arith,
    count-put_rest k c.user_id (without c.key (clients_of c.user_id h.clients)) h.clients,
    count_in-without k c.key (clients_of c.user_id h.clients) here,
  )

  still_open : is_open c.key h.channels ≡ true
  still_open = s.opened c.key (
      omega (
        arith,
        has_client-count_in c.key (clients_of c.user_id h.clients) here,
        count_in-le-count c.key c.user_id h.clients,
      ))

  removed-Safe : Safe (close c.key unlisted)
  unfolding unlisted
  removed-Safe =
      let (calm, same, others) = close_lem c.key unlisted still_open in
      record {
        calm = calm ∙ s.calm;
        once = λ k. rw same (omega (arith, count-unlisted k, s.once k));
        opened = λ k p. opened_rest k (rw same at p) others;
      }
    where
      opened_rest :
          (k : ℕ)
          → 1 ≤ count k unlisted.clients
          → ((j : ℕ)
              → j ≢ c.key
              → is_open j (close c.key unlisted).channels ≡ is_open j unlisted.channels)
          → is_open k (close c.key unlisted).channels ≡ true
      opened_rest k p others = elim (Bool-cases (k == c.key)) [
        | inl e ↦ absurd (ground (arith, count-unlisted k, s.once k))
        | inr e ↦ others k (ground arith) ∙ s.opened k (omega (arith, count-unlisted k))
      ]

remove_client-Safe : (c : Client) (h : Hub) → Safe h → Safe (remove_client c h)
unfolding remove_client unlisted
remove_client-Safe c h s = elim (Bool-cases (has_client c.key (clients_of c.user_id h.clients))) [
  | inr e ↦ rw e s
  | inl e ↦ rw e (removed-Safe c h s e)
]

remove_all-Safe : (cs : List Client) (h : Hub) → Safe h → Safe (remove_all cs h)
unfolding remove_all
remove_all-Safe [] h s = s
remove_all-Safe (c ∷ cs) h s = remove_all-Safe cs (remove_client c h) (remove_client-Safe c h s)

send-Safe :
    (key : ℕ) (msg : Str) (h : Hub)
    → Safe h
    → 1 ≤ count key h.clients
    → Safe (send key msg h).0 × ((send key msg h).0.clients ≡ h.clients)
send-Safe key msg h s p =
    let (calm, same, others) = send_lem key msg h (s.opened key p) in
    (
      record {
        calm = calm ∙ s.calm;
        once = λ k. rw same (s.once k);
        opened = λ k q. others k ∙ s.opened k (rw same at q);
      },
      same,
    )

-- every client of the slice is registered
abbrev Listed : List (Str × List Client) → List Client → Type 0
Listed m cs = All (λ c. 1 ≤ count c.key m) cs

send_all-Safe :
    (cs : List Client) (msg : Str) (h : Hub) (dead : List Client)
    → Safe h
    → Listed h.clients cs
    → Safe (send_all cs msg h dead).0
unfolding send_all
send_all-Safe [] msg h dead s l = s
send_all-Safe (c ∷ cs) msg h dead s (p, l) =
    let (s', same) = send-Safe c.key msg h s p in
    send_all-Safe cs msg (send c.key msg h).0
      (if (send c.key msg h).1 then dead else dead ++ c ∷ []) s' (rw same l)

Listed-suffix :
    (cs : List Client) (m : List (Str × List Client))
    → ((k : ℕ) → count_in k cs ≤ count k m)
    → Listed m cs
unfolding count_in
Listed-suffix [] m f = tt
Listed-suffix (c ∷ cs) m f = (ground (arith, f c.key), Listed-suffix cs m (λ k. omega (arith, f k)))

deliver_to_clients-Safe :
    (u : Str) (msg : Str) (h : Hub)
    → Safe h
    → Safe (deliver_to_clients (clients_of u h.clients) msg h)
unfolding deliver_to_clients
deliver_to_clients-Safe u msg h s =
    remove_all-Safe (send_all (clients_of u h.clients) msg h []).1
      (send_all (clients_of u h.clients) msg h []).0
      (send_all-Safe (clients_of u h.clients) msg h [] s
        (Listed-suffix (clients_of u h.clients) h.clients (λ k. count_in-le-count k u h.clients)))

broadcast_loop-Safe :
    (us : List Str) (msg : Str) (h : Hub) → Safe h → Safe (broadcast_loop us msg h)
unfolding broadcast_loop
broadcast_loop-Safe [] msg h s = s
broadcast_loop-Safe (u ∷ us) msg h s =
    broadcast_loop-Safe us msg (deliver_to_clients (clients_of u h.clients) msg h)
      (deliver_to_clients-Safe u msg h s)

-- What the program sees to before an event: a new connection has a fresh key, and a connection
-- registers once, while its channel is open.
abbrev pub Admissible : Event → Hub → Type 0
Admissible (Event.connect key) h = count key h.clients ≡ 0
Admissible (Event.register c) h = (count c.key h.clients ≡ 0) × (is_open c.key h.channels ≡ true)
Admissible _ h = Unit {0}

is_open-append :
    (k : ℕ) (chs : List Channel) (ch : Channel)
    → is_open k chs ≡ true
    → is_open k (chs ++ ch ∷ []) ≡ true
unfolding is_open
is_open-append k [] ch h = cc
is_open-append k (x ∷ chs) ch h = ground (arith, is_open-append k chs ch)

count_in-append :
    (k : ℕ) (cs : List Client) (c : Client)
    → count_in k (cs ++ c ∷ []) ≡ count_in k cs + one_if (c.key == k)
unfolding count_in
count_in-append k [] c = omega arith
count_in-append k (x ∷ cs) c = omega (arith, count_in-append k cs c)

count-register :
    (k : ℕ) (c : Client) (m : List (Str × List Client))
    → count k (set_clients c.user_id (clients_of c.user_id m ++ c ∷ []) m)
      ≡ count k m + one_if (c.key == k)
count-register k c m = omega (
  arith,
  count-set_clients k c.user_id (clients_of c.user_id m ++ c ∷ []) m,
  count_in-append k (clients_of c.user_id m) c,
)

registered_once :
    (k : ℕ) (c : Client) (h : Hub)
    → count c.key h.clients ≡ 0
    → count k h.clients ≤ 1
    → count k (set_clients c.user_id (clients_of c.user_id h.clients ++ c ∷ []) h.clients) ≤ 1
registered_once k c h fresh le = elim (Bool-cases (c.key == k)) [
  | inl e ↦
      let same : c.key ≡ k = ground arith in
      ground (arith, count-register k c h.clients, ap (λ j. count j h.clients) same)
  | inr e ↦ ground (arith, count-register k c h.clients)
]

registered_open :
    (k : ℕ) (c : Client) (h : Hub)
    → is_open c.key h.channels ≡ true
    → Safe h
    → 1 ≤ count k (set_clients c.user_id (clients_of c.user_id h.clients ++ c ∷ []) h.clients)
    → is_open k h.channels ≡ true
registered_open k c h o s p = elim (Bool-cases (c.key == k)) [
  | inl e ↦ let same : c.key ≡ k = ground arith in cc
  | inr e ↦ s.opened k (ground (arith, count-register k c h.clients))
]

-- Every event of the loop keeps the hub safe: no message is sent on a closed channel and none is
-- closed twice, also when full clients are dropped in the middle of a delivery or a broadcast.
pub handle-Safe : (e : Event) (h : Hub) → Admissible e h → Safe h → Safe (handle e h)
unfolding handle deliver_to_user
handle-Safe (Event.connect key) h a s = record {
  calm = s.calm;
  once = s.once;
  opened = λ k p. is_open-append k h.channels _ (s.opened k p);
}
handle-Safe (Event.register c) h a s = record {
  calm = s.calm;
  once = λ k. registered_once k c h a.0 (s.once k);
  opened = λ k p. registered_open k c h a.1 s p;
}
handle-Safe (Event.unregister c) h a s = remove_client-Safe c h s
handle-Safe (Event.targeted u msg) h a s = deliver_to_clients-Safe u msg h s
handle-Safe (Event.broadcast msg) h a s = broadcast_loop-Safe (users h.clients) msg h s
