-- ===== src/Modules/Lifecycle/Histories.antt =====
-- The public operations of the lifecycle manager in any order, with any outcome of every call.
use businessos.Prelude.{String, true, string_eq}
use businessos.Modules.Lifecycle.{Registry, Calls, enable, disable, retire}
use businessos.Modules.Lifecycle.Soundness.{
  AllSound, Change-AllSound, enable-Change, disable-AllSound, retire-AllSound,
}
use businessos.Modules.Lifecycle.Dependencies.{AllFed, enable-AllFed, disable-AllFed, retire-AllFed}

pub data Step (r : Registry) : Registry → Type 0 where
  enables : (id : String) (calls : Calls) → Step r (enable id calls r).1
  disables : (id : String) (calls : Calls) → Step r (disable true id calls r).1
  retires : (id : String) (calls : Calls) → Step r (retire id calls r).1

pub data Reach (r : Registry) : Registry → Type 0 where
  here : Reach r r
  next : {s t : Registry} → Reach r s → Step s t → Reach r t

-- What holds in every registry: fields agree with states, and dependencies are enabled.
pub record IsWell (r : Registry) : Type 0 where
  pub sound : AllSound r
  pub fed : AllFed r

pub Step-IsWell : {r s : Registry} → Step r s → IsWell r → IsWell s
Step-IsWell {r} (enables id calls) w = record {
  sound = Change-AllSound r (enable id calls r).1 id (enable-Change r id calls w.sound) w.sound;
  fed = enable-AllFed r id calls w.sound w.fed;
}
Step-IsWell {r} (disables id calls) w = record {
  sound = disable-AllSound r id calls true w.sound;
  fed = disable-AllFed r id calls w.fed;
}
Step-IsWell {r} (retires id calls) w = record {
  sound = retire-AllSound r id calls w.sound;
  fed = retire-AllFed r id calls w.sound w.fed;
}

-- From a registry in which each enabled module is started, registered, and has only enabled
-- dependencies, and only enabled or failed modules are started or registered, every sequence of
-- enable, disable and retire leads to such a registry, whatever the calls that they make raise.
pub Reach-IsWell : {r s : Registry} → Reach r s → IsWell r → IsWell s
Reach-IsWell here w = w
Reach-IsWell (next h step) w = Step-IsWell step (Reach-IsWell h w)
