-- ===== src/Daemon/Subscribing.antt =====
-- What `subscribe` leaves behind.
use open_vbus.Bus.{set_sub_cb}
use open_vbus.Base.{
  ◌≡◌, refl, true, some, Text, lookup, lookup-insert, text_eq, text_eq_iff, ◌==◌, ◌∙◌, arith,
}
use open_vbus.Frame.{Frame}
use open_vbus.Daemon.Replies
use open_vbus.Daemon.State.{World, BusWrap, Os, Handle, attach_sub, put_bus, run_sub, write_pipe}
use open_vbus.Daemon.Handler.{answered, with_bus, subscribe}

-- After `subscribe` on a bus that is there the connection stays open, the bus has the subscriber's
-- callback, and that callback writes to the new pipe.
pub subscribe_lem :
    (h : Handle) (name : Text) (w : World) (b : BusWrap)
    → lookup name w.buses ≡ some b
    → (w' : World) × (b' : BusWrap) × (subscribe h name w ≡ answered w' Replies.stream true)
      × (lookup name w'.buses ≡ some b')
      × (b'.bus.sub_cb ≡ some b.sub)
      × ((os : Os) (f : Frame)
          → run_sub os b.sub f w' ≡ write_pipe os.pipe_accepts (some h) b.sub f w')
unfolding subscribe attach_sub set_sub_cb put_bus run_sub
subscribe_lem h name w b e =
    let (b', w₁) = attach_sub h b w in
    let itself : b.sub == b.sub ≡ true = ground arith in
    let known : text_eq name name ≡ true = (text_eq_iff name name).1 refl in
    (
      put_bus name b' w₁,
      b',
      rw (with_bus, e) refl,
      lookup-insert name name b' w₁.buses ∙ rw known refl,
      refl,
      λ os f. rw itself refl,
    )
