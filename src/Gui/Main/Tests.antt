-- ===== src/Gui/Main/Tests.antt =====
-- Turns of the GUI: a user who makes a bus and edits every text, then one who does nothing.
use open_vbus.Base.{
  ◌≡◌, ◌<◌, refl, Bool, true, false, ◌&&◌, ℕ, zero, suc, Option, none, some, List, [], ◌∷◌, Text,
  codes, text_eq, length, length-take, take, arith,
}
use open_vbus.Link.{Session}
use open_vbus.Gui.Desk.{desk, no_json, beside_daemon}
use open_vbus.Gui.Model.Invariant.{IsSound}
use open_vbus.Gui.Model.Records.{any_recording}
use open_vbus.Gui.Panels.{Widget, plain, numbered, Screen, IsLawful}
use open_vbus.Gui.Panels.Idle.{idle}
use open_vbus.Gui.Window.{Ui, draw_dockspace}
use open_vbus.Gui.Window.Idle.{draw_idle}
use open_vbus.Gui.Main.{Turn, thread_runs, start_ui, first_ui, main_loop}
use open_vbus.Gui.Main.Runs.{main-IsSound}

is_new_bus : Widget → Bool
is_new_bus (plain window label) = text_eq label (codes "+ New Bus")
is_new_bus (numbered window i label) = false

typed : ℕ → Option Text
typed zero = none
typed (suc n) = some (take n (codes "trace.vbuscap"))

abbrev busy : Screen
busy = record {
  clicked = is_new_bus;
  opened = λ w. true;
  checkbox = λ w b. b;
  combo = λ w n i. none;
  input_text = λ w size t. typed size;
  input_number = λ w n. n;
  input_float = λ w x. x;
  float_text = λ x. codes "1.000000";
}

typed-lt : (size : ℕ) (t : Text) → typed size ≡ some t → length t < size
unfolding typed
typed-lt zero t e = cc
typed-lt (suc n) t e =
    let same : take n (codes "trace.vbuscap") ≡ t = cc in
    rw (← same) (omega (arith, length-take n (codes "trace.vbuscap")))

busy-IsLawful : IsLawful busy
busy-IsLawful = record {
  text_fits = λ w size t t' e. typed-lt size t' e;
  combo_within = λ w n i j e. cc;
}

abbrev one_turn : List Turn
one_turn =
    record { closed = false; arrivals = thread_runs ∷ []; elapsed = 16_000_000; screen = busy } ∷ []

main-IsSound_example :
    IsSound (main_loop desk no_json one_turn (start_ui desk no_json 1 beside_daemon)).1.model
main-IsSound_example = main-IsSound desk no_json 1 beside_daemon one_turn (busy-IsLawful, tt)

abbrev first : Ui Session
first = start_ui desk no_json 1 beside_daemon

no_open : first.s_do_open ≡ false
unfolding start_ui first_ui
no_open = refl

no_save : first.s_do_save ≡ false
unfolding start_ui first_ui
no_save = refl

draw_idle_example : draw_dockspace desk no_json (idle (λ w. true) (λ x. [])) first ≡ record first {
  model = record first.model {
    global_recording = first.model.global_recording && any_recording desk first.model.buses;
  };
}
draw_idle_example = draw_idle desk no_json (λ w. true) (λ x. []) first no_open no_save
