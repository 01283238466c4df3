-- ===== src/Ua/Reach.antt =====
-- What every method of a user agent does, whatever its arguments are: it follows the diagram of
-- the states, and it keeps the user agent sound.
pub mod Emission
pub mod Events
pub mod Messages
pub mod Requests
pub mod Calls
use go_b2bua.Prelude.{
  ℕ, ◌<◌, sym, ap, ◌∙◌, Option, none, some, List, [], ◌∷◌, ◌≡◌, ◌≢◌, Bool, true, false, refl,
  if◌then◌else◌,
}
use go_b2bua.Event.{CcEvent}
use go_b2bua.Ua.State.{UaStateId, ua_state_dead, state_id, Ua}
use go_b2bua.Ua.Graph.{◌⟶*◌, here, ⟶*_trans}
use go_b2bua.Ua.Frame.{Frame, Ordered, delivered}

-- events, the latest first, in the order of their numbers, each number once
abbrev pub Increasing : List CcEvent → Type 0
Increasing [] = Unit
Increasing (e ∷ []) = Unit
Increasing (e ∷ d ∷ es) = (d.seq < e.seq) × Increasing (d ∷ es)

abbrev pub last_seq : List CcEvent → Option ℕ
last_seq [] = none
last_seq (e ∷ es) = some e.seq

pub record Sound (u : Ua) : Type 0 where
  pub last : u.elast_seq ≡ last_seq (delivered u.out)
  pub increasing : Increasing (delivered u.out)
  pub ordered : Ordered u.stamps.connect_ts u.stamps.disconnect_ts
  pub tm_gone : u.has_tm ≡ false → u.has_controller ≡ false
  pub dead_gone : state_id u.state ≡ ua_state_dead → u.has_tm ≡ false

-- `u` comes of `v` along the diagram; with no call controller nothing is delivered on the way.
pub record Reaches (v u : Ua) : Type 0 where
  pub path : state_id v.state ⟶* state_id u.state
  pub sound : Sound u
  pub quiet :
      v.has_controller ≡ false → (u.has_controller ≡ false) × (delivered u.out ≡ delivered v.out)

pub Frame_refl : (v : Ua) → Sound v → Frame v v
Frame_refl v s = record {
  id_same = refl;
  elast_same = refl;
  sent_same = refl;
  tm_same = refl;
  controller_same = refl;
  ordered = s.ordered;
}

pub Frame-Sound : (v u : Ua) → Sound v → Frame v u → Sound u
Frame-Sound v u s f = record {
  last = f.elast_same ∙ s.last ∙ ap last_seq (sym f.sent_same);
  increasing = rw f.sent_same s.increasing;
  ordered = f.ordered;
  tm_gone = λ e. f.controller_same ∙ s.tm_gone (sym f.tm_same ∙ e);
  dead_gone = λ e. f.tm_same ∙ s.dead_gone (sym f.id_same ∙ e);
}

pub Frame-Reaches : (v u : Ua) → Sound v → Frame v u → Reaches v u
Frame-Reaches v u s f = record {
  path = rw f.id_same here;
  sound = Frame-Sound v u s f;
  quiet = λ e. (f.controller_same ∙ e, f.sent_same);
}

pub Reaches_trans : (v u w : Ua) → Reaches v u → Reaches u w → Reaches v w
Reaches_trans v u w a b = record {
  path = ⟶*_trans a.path b.path;
  sound = b.sound;
  quiet = λ e. ((b.quiet (a.quiet e).0).0, (b.quiet (a.quiet e).0).1 ∙ (a.quiet e).1);
}

-- a step that keeps the frame can be added behind
pub then_Frame :
    (v u : Ua) (f : Ua → Ua) → (Frame u u → Frame u (f u)) → Reaches v u → Reaches v (f u)
then_Frame v u f k r =
    Reaches_trans v u (f u) r (Frame-Reaches u (f u) r.sound (k (Frame_refl u r.sound)))

pub Reaches_refl : (u : Ua) → Sound u → Reaches u u
Reaches_refl u h = Frame-Reaches u u h (Frame_refl u h)

pub Reaches-if :
    (v x y : Ua) (b : Bool)
    → (b ≡ true → Reaches v x)
    → (b ≡ false → Reaches v y)
    → Reaches v (if b then x else y)
Reaches-if v x y true p q = p refl
Reaches-if v x y false p q = q refl
