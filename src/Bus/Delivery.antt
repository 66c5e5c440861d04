-- ===== src/Bus/Delivery.antt =====
-- Who gets a frame that is sent on a bus, and in what shape.
use open_vbus.Base.{
  ℕ, ◌+◌, ◌^◌, ◌<◌, ◌≡◌, refl, ap, ◌∙◌, Option, none, some, List, [], ◌∷◌, arith, if◌then◌else◌,
  ◌==◌, length, All,
}
use open_vbus.Frame.{Frame, eth2, can20, canfd}
use open_vbus.Scheduler.{SimTime}
use open_vbus.Bus
use open_vbus.Bus.{
  Bus, Kind, eth, can, Job, send, deliver, receive_all, Effect, record_frame, stream_frame, receive,
  count_rx, remove, targets_of,
}

-- How often `ep` stands in a list of endpoints.
unfoldable pub times : ℕ → List ℕ → ℕ
times ep [] = 0
times ep (x ∷ xs) = (if x == ep then 1 else 0) + times ep xs

-- How often `ep` receives `f`, and how often something else than `f` is handed on, in a run of
-- effects.
unfoldable pub receptions : ℕ → List Effect → ℕ
receptions ep [] = 0
receptions ep (receive x g ∷ es) = (if x == ep then 1 else 0) + receptions ep es
receptions ep (_ ∷ es) = receptions ep es

unfoldable pub counts : List Effect → ℕ
counts [] = 0
counts (count_rx b ∷ es) = 1 + counts es
counts (_ ∷ es) = counts es

abbrev pub Carries : Frame → Effect → Type 0
Carries f (record_frame cb g) = g ≡ f
Carries f (stream_frame cb g) = g ≡ f
Carries f (receive ep g) = g ≡ f
Carries f (count_rx b) = Unit {0}

-- Whose callbacks a run of effects calls: the recorders, the subscribers, and the endpoints, in order.
abbrev pub recorders : List Effect → List ℕ
recorders [] = []
recorders (record_frame cb f ∷ es) = cb ∷ recorders es
recorders (_ ∷ es) = recorders es

abbrev pub subscribers : List Effect → List ℕ
subscribers [] = []
subscribers (stream_frame cb f ∷ es) = cb ∷ subscribers es
subscribers (_ ∷ es) = subscribers es

abbrev pub receivers : List Effect → List ℕ
receivers [] = []
receivers (receive ep f ∷ es) = ep ∷ receivers es
receivers (_ ∷ es) = receivers es

abbrev pub if_there : Option ℕ → List ℕ
if_there none = []
if_there (some cb) = cb ∷ []

times-remove :
    (ep x : ℕ) (xs : List ℕ) → times ep (remove x xs) ≡ (if x == ep then 0 else times ep xs)
unfolding times remove
times-remove ep x [] = ground arith
times-remove ep x (y ∷ ys) = ground (arith, times-remove ep x ys)

receptions-receive_all :
    (ep b : ℕ) (f : Frame) (eps : List ℕ) → receptions ep (receive_all b f eps) ≡ times ep eps
unfolding receptions receive_all times
receptions-receive_all ep b f [] = refl
receptions-receive_all ep b f (x ∷ xs) = ground (arith, receptions-receive_all ep b f xs)

counts-receive_all : (b : ℕ) (f : Frame) (eps : List ℕ) → counts (receive_all b f eps) ≡ length eps
unfolding counts receive_all
counts-receive_all b f [] = refl
counts-receive_all b f (x ∷ xs) = omega (arith, counts-receive_all b f xs)

receptions-deliver : (ep : ℕ) (j : Job) → receptions ep (deliver j) ≡ times ep j.targets
unfolding deliver receptions
receptions-deliver ep j = ground (arith, receptions-receive_all ep j.stats j.frame j.targets)

counts-deliver : (j : Job) → counts (deliver j) ≡ length j.targets
unfolding deliver counts
counts-deliver j = ground (arith, counts-receive_all j.stats j.frame j.targets)

targets-send :
    (now₁ now₂ : SimTime) (src : Option ℕ) (f : Frame) (b : Bus)
    → (send now₁ now₂ src f b).item.fn.targets ≡ targets_of src b.endpoints
unfolding send
targets-send now₁ now₂ src f b = ground arith

-- A frame that is sent is received by each connected endpoint once for each of its connections, and
-- never by its source; `none` is the daemon's `nullptr`, which excludes nobody.
pub receptions-send :
    (now₁ now₂ : SimTime) (src : Option ℕ) (f : Frame) (b : Bus) (ep : ℕ)
    → let j = (send now₁ now₂ src f b).item.fn in
      receptions ep (deliver j) ≡ elim src [
        | none ↦ times ep b.endpoints
        | some s ↦ if s == ep then 0 else times ep b.endpoints
      ]
unfolding targets_of
receptions-send now₁ now₂ none f b ep =
    receptions-deliver ep _ ∙ ap (times ep) (targets-send now₁ now₂ none f b)
receptions-send now₁ now₂ (some s) f b ep =
    receptions-deliver ep _
    ∙ ap (times ep) (targets-send now₁ now₂ (some s) f b)
    ∙ times-remove ep s b.endpoints

-- The counters: `Send` adds one to `Tx_frames` and leaves the others, and the delivery counts one
-- reception for each endpoint that it serves.
pub send_counters :
    (now₁ now₂ : SimTime) (src : Option ℕ) (f : Frame) (b : Bus)
    → b.stats.tx_frames + 1 < 2 ^ 64
    → let s = send now₁ now₂ src f b in
      (s.bus.stats.tx_frames ≡ b.stats.tx_frames + 1)
      × (s.bus.stats.rx_frames ≡ b.stats.rx_frames)
      × (s.bus.stats.drops ≡ b.stats.drops)
      × (counts (deliver s.item.fn) ≡ length (targets_of src b.endpoints))
unfolding send
send_counters now₁ now₂ src f b h = (
  ground arith,
  ground arith,
  ground arith,
  counts-deliver _ ∙ ap length (targets-send now₁ now₂ src f b),
)

All-receive_all : (b : ℕ) (f : Frame) (eps : List ℕ) → All (Carries f) (receive_all b f eps)
unfolding receive_all
All-receive_all b f [] = tt
All-receive_all b f (x ∷ xs) = (refl, (tt, All-receive_all b f xs))

All-deliver : (j : Job) → All (Carries j.frame) (deliver j)
unfolding deliver
All-deliver j = ground (arith, All-receive_all j.stats j.frame j.targets)

-- The protocol that a bus gives every frame, whatever the sender wrote there.
abbrev pub bus_proto : Kind → Frame → ℕ
bus_proto (eth link_bps) f = eth2
bus_proto (can bitrate) f = if f.proto == canfd then canfd else can20

quiet-receive_all :
    (b : ℕ) (f : Frame) (eps : List ℕ)
    → (recorders (receive_all b f eps) ≡ [])
      × (subscribers (receive_all b f eps) ≡ [])
      × (receivers (receive_all b f eps) ≡ eps)
unfolding receive_all
quiet-receive_all b f [] = (refl, refl, refl)
quiet-receive_all b f (x ∷ xs) =
    let (r, s, eps) = quiet-receive_all b f xs in (r, s, ap (◌∷◌ x) eps)

served-deliver :
    (rec_cb sub_cb : Option ℕ) (b : ℕ) (f : Frame) (eps : List ℕ)
    → let es =
        deliver
          (record { targets = eps; frame = f; rec_cb = rec_cb; sub_cb = sub_cb; stats = b }) in
      (recorders es ≡ if_there rec_cb) × (subscribers es ≡ if_there sub_cb) × (receivers es ≡ eps)
unfolding deliver
served-deliver none none b f eps = quiet-receive_all b f eps
served-deliver none (some s) b f eps =
    let (r, t, e) = quiet-receive_all b f eps in (r, ap (◌∷◌ s) t, e)
served-deliver (some c) none b f eps =
    let (r, t, e) = quiet-receive_all b f eps in (ap (◌∷◌ c) r, t, e)
served-deliver (some c) (some s) b f eps =
    let (r, t, e) = quiet-receive_all b f eps in (ap (◌∷◌ c) r, ap (◌∷◌ s) t, e)

served-send :
    (now₁ now₂ : SimTime) (src : Option ℕ) (f : Frame) (b : Bus)
    → let es = deliver (send now₁ now₂ src f b).item.fn in
      (recorders es ≡ if_there b.rec_cb)
      × (subscribers es ≡ if_there b.sub_cb)
      × (receivers es ≡ targets_of src b.endpoints)
unfolding send
served-send now₁ now₂ src f b =
    let j = (send now₁ now₂ src f b).item.fn in
    let (r, t, e) = served-deliver j.rec_cb j.sub_cb j.stats j.frame j.targets in
    (
      r ∙ ap if_there (ground arith),
      t ∙ ap if_there (ground arith),
      e ∙ targets-send now₁ now₂ src f b,
    )

-- One and the same frame, the tag and payload that were sent under the bus's own protocol, goes to
-- the forwarder at once and, with the delivery, once to the recorder of the bus, once to its
-- subscriber, where it has them, and to each endpoint but the source, in their order; to nobody else,
-- and nothing else is handed on. So a datagram captured on an Ethernet hub is recorded as an
-- Ethernet frame, not as UDP.
pub send-Carries :
    (now₁ now₂ : SimTime) (src : Option ℕ) (f : Frame) (b : Bus)
    → let s = send now₁ now₂ src f b in
      let g = s.item.fn.frame in
      (g.proto ≡ bus_proto b.kind f)
      × (g.tag ≡ f.tag)
      × (g.payload ≡ f.payload)
      × All (Carries g) (deliver s.item.fn)
      × (recorders (deliver s.item.fn) ≡ if_there b.rec_cb)
      × (subscribers (deliver s.item.fn) ≡ if_there b.sub_cb)
      × (receivers (deliver s.item.fn) ≡ targets_of src b.endpoints)
      × (s.forwarded ≡ Bus.to_callback b.fwd_cb g)
unfolding send
send-Carries now₁ now₂ src f b =
    let (recorder, subscriber, endpoints) = served-send now₁ now₂ src f b in
    (
      ground arith,
      ground arith,
      ground arith,
      All-deliver _,
      recorder,
      subscriber,
      endpoints,
      ground arith,
    )
