-- ===== src/FreeRtos/Ringbuf/Order.antt =====
-- Whatever its type, a ring buffer hands out its bytes in the order in which they were sent.
use esp32emu.Base.{
  ℕ, ◌≡◌, refl, sym, ap, ◌∙◌, Bool, true, false, List, [], ◌∷◌, ◌++◌, append_assoc, append-nil,
  Option, none, some, All, Bool-cases, inl, inr, ltb, add_size, length,
}
use mathlib.Core.Path.{subst}
use esp32emu.Base.History.{run, run_order}
use esp32emu.FreeRtos.Ringbuf.{
  RingbufferType, nosplit, allowsplit, bytebuf, Ringbuffer, x_ringbuffer_send, x_ringbuffer_receive,
  receive_item, receive_stream, receive_by, store,
}

abbrev pub joined : List (List ℕ) → List ℕ
joined [] = []
joined (x ∷ xs) = x ++ joined xs

-- The bytes that wait, in order.
abbrev pub waiting : Ringbuffer → List ℕ
waiting rb = joined rb.items ++ rb.byte_stream

-- A buffer of items has an empty stream, one of bytes has no items.
abbrev Unmixed : RingbufferType → List (List ℕ) → List ℕ → Type 0
Unmixed bytebuf items bytes = items ≡ []
Unmixed nosplit items bytes = bytes ≡ []
Unmixed allowsplit items bytes = bytes ≡ []

abbrev pub IsUnmixed : Ringbuffer → Type 0
IsUnmixed rb = Unmixed rb.rtype rb.items rb.byte_stream

pub data Call : Type 0 where
  send : List ℕ → Call
  receive : Call

abbrev accepted : List ℕ → Bool → List ℕ
accepted source true = source
accepted source false = []

abbrev handed : Option (List ℕ) → List ℕ
handed none = []
handed (some x) = x

-- The state after a call, the bytes it put in and those it took out.
unfoldable pub step : Ringbuffer → Call → Ringbuffer × List ℕ × List ℕ
unfolding x_ringbuffer_send x_ringbuffer_receive
step rb (send source) =
    let (rb', sent) = x_ringbuffer_send rb source in (rb', accepted source sent, [])
step rb receive = let (rb', out) = x_ringbuffer_receive rb in (rb', [], handed out)

joined-append : (xs ys : List (List ℕ)) → joined (xs ++ ys) ≡ joined xs ++ joined ys
joined-append [] ys = refl
joined-append (x ∷ xs) ys =
    ap (λ t. x ++ t) (joined-append xs ys) ∙ sym (append_assoc x (joined xs) (joined ys))

items_waiting :
    (rb : Ringbuffer) (source : List ℕ)
    → rb.byte_stream ≡ []
    → joined (rb.items ++ source ∷ []) ++ rb.byte_stream ≡ waiting rb ++ source
items_waiting rb source e = simp (e, append-nil, joined-append)

waiting-store :
    (t : RingbufferType) (rb : Ringbuffer) (source : List ℕ)
    → Unmixed t rb.items rb.byte_stream
    → (waiting (store t rb source) ≡ waiting rb ++ source)
      × ((store t rb source).rtype ≡ rb.rtype)
      × (let rb' = store t rb source in Unmixed t rb'.items rb'.byte_stream)
unfolding store
waiting-store bytebuf rb source u =
    (sym (append_assoc (joined rb.items) rb.byte_stream source), refl, u)
waiting-store nosplit rb source u = (items_waiting rb source u, refl, u)
waiting-store allowsplit rb source u = (items_waiting rb source u, refl, u)

item_order :
    (rb : Ringbuffer) (xs : List (List ℕ))
    → rb.items ≡ xs
    → let (rb', out) = receive_item rb xs in
      (handed out ++ waiting rb' ≡ waiting rb)
      × (rb'.rtype ≡ rb.rtype)
      × (rb'.byte_stream ≡ rb.byte_stream)
unfolding receive_item
item_order rb [] e = (refl, refl, refl)
item_order rb (x ∷ xs) e = (
  sym (append_assoc x (joined xs) rb.byte_stream) ∙ ap (λ t. joined t ++ rb.byte_stream) (sym e),
  refl,
  refl,
)

stream_order :
    (rb : Ringbuffer) (xs : List ℕ)
    → rb.byte_stream ≡ xs
    → rb.items ≡ []
    → let (rb', out) = receive_stream rb xs in
      (handed out ++ waiting rb' ≡ waiting rb) × (rb'.rtype ≡ rb.rtype) × (rb'.items ≡ rb.items)
unfolding receive_stream
stream_order rb [] e u = (refl, refl, refl)
stream_order rb (x ∷ xs) e u = (simp (u, e, append-nil), refl, refl)

send_order :
    (rb : Ringbuffer) (source : List ℕ)
    → IsUnmixed rb
    → let (rb', sent) = x_ringbuffer_send rb source in
      IsUnmixed rb' × (waiting rb' ≡ waiting rb ++ accepted source sent)
unfolding x_ringbuffer_send
send_order rb source u =
    let w = waiting-store rb.rtype rb source u in
    elim (Bool-cases (ltb rb.max_size (add_size rb.used_bytes (length source)))) [
      | inl e ↦ rw e (u, sym (append-nil (waiting rb)))
      | inr e ↦ rw (e, w.1) (w.2, w.0)
    ]

receive_order :
    (t : RingbufferType) (rb : Ringbuffer)
    → rb.rtype ≡ t
    → Unmixed t rb.items rb.byte_stream
    → let (rb', out) = receive_by t rb in
      (rb'.rtype ≡ t)
      × Unmixed t rb'.items rb'.byte_stream
      × (handed out ++ waiting rb' ≡ waiting rb)
unfolding receive_by
receive_order bytebuf rb e u =
    let o = stream_order rb rb.byte_stream refl u in (o.1 ∙ e, o.2 ∙ u, o.0)
receive_order nosplit rb e u = let o = item_order rb rb.items refl in (o.1 ∙ e, o.2 ∙ u, o.0)
receive_order allowsplit rb e u = let o = item_order rb rb.items refl in (o.1 ∙ e, o.2 ∙ u, o.0)

step_order :
    (rb : Ringbuffer) (c : Call)
    → IsUnmixed rb
    → Unit {0}
    → IsUnmixed (step rb c).0
      × ((step rb c).2 ++ waiting (step rb c).0 ≡ waiting rb ++ (step rb c).1)
unfolding step x_ringbuffer_receive
step_order rb (send source) u _ = send_order rb source u
step_order rb receive u _ =
    let (kind, clean, order) = receive_order rb.rtype rb refl u in
    (
      subst
          (λ t. Unmixed t (x_ringbuffer_receive rb).0.items (x_ringbuffer_receive rb).0.byte_stream)
          (sym kind) clean,
      order ∙ sym (append-nil (waiting rb)),
    )

-- Over every history of sends and receives on a ring buffer of any type, the bytes received and then
-- those that wait are the bytes that waited at the start and then those of the sends that succeeded.
pub byte_order :
    (cs : List Call) (rb : Ringbuffer)
    → IsUnmixed rb
    → let (rb', put, got) = run step rb cs in got ++ waiting rb' ≡ waiting rb ++ put
byte_order cs rb u =
    run_order step waiting IsUnmixed (λ c. Unit {0}) step_order cs rb u (all_free cs)
  where
    all_free : (cs : List Call) → All (λ c. Unit {0}) cs
    all_free [] = tt
    all_free (c ∷ cs) = (tt, all_free cs)
