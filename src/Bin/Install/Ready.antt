-- ===== src/Bin/Install/Ready.antt =====
-- When a service may be registered: what was installed is in place, and only root can change it.
use sc_helper.Prelude.{◌≡◌, ◌≢◌, Bool, true, false, none, some, List, [], ◌∷◌, Text, if◌then◌else◌}
use sc_helper.Prelude.Program.{ok}
use sc_helper.Std.Path.{join}
use sc_helper.Std.Text.{text_eq}
use sc_helper.Bin.Files.{Status, ran, Calls}
use sc_helper.Bin.Files.Known.{copy_of, body, content_at, IsSecured, refused_last}
use sc_helper.Bin.Install.{helper_name, mihomo_name, ping_name, executable, readable}

-- What an installer puts where: the payload's directory, the three programs, the service's
-- description and its text, and the verb by which the service manager takes it up.
pub record Plan : Type 0 where
  pub payload : Text
  pub helper : Text
  pub mihomo : Text
  pub ping : Text
  pub unit : Text
  pub unit_text : Text
  pub verb : Text

abbrev pub first_is : Text → List Text → Bool
first_is verb [] = false
first_is verb (a ∷ args) = text_eq a verb

-- If the program was put there, it is root's and only root can write to it.
abbrev pub IsGuarded : Text → Calls → Type 0
IsGuarded p t = content_at p t ≢ none → IsSecured executable p t

module _ (plan : Plan) where
  abbrev pub IsCopied : Calls → Type 0
  IsCopied t = content_at plan.helper t ≡ some (copy_of (join plan.payload helper_name))

  abbrev pub IsWritten : Calls → Type 0
  IsWritten t = content_at plan.unit t ≡ some (body plan.unit_text)

  abbrev pub IsReady : Calls → Type 0
  IsReady t =
      IsCopied t
      × IsWritten t
      × IsSecured executable plan.helper t
      × IsGuarded plan.mihomo t
      × IsGuarded plan.ping t
      × IsSecured readable plan.unit t

  -- Whenever the service was registered, all was ready.
  unfoldable pub IsCareful : Calls → Type 0
  IsCareful [] = Unit
  IsCareful (ran program args r ∷ t) = (first_is plan.verb args ≡ true → IsReady t) × IsCareful t
  IsCareful (_ ∷ t) = IsCareful t

-- That, where the newest call was refused.
abbrev pub IsExcused : Plan → Calls → Type 0
IsExcused plan t = IsCareful plan t × (refused_last t ≡ true)

-- Whether the service manager was asked to take the service up and answered with such a status.
unfoldable pub registered : (Status → Bool) → Text → Calls → Bool
registered accepts verb [] = false
registered accepts verb (ran program args (ok s) ∷ t) =
    let before = registered accepts verb t in
    if first_is verb args then (if accepts s then true else before) else before
registered accepts verb (_ ∷ t) = registered accepts verb t

-- The four paths are different.
pub record IsApart (plan : Plan) : Type 0 where
  pub helper_mihomo : text_eq plan.helper plan.mihomo ≡ false
  pub helper_ping : text_eq plan.helper plan.ping ≡ false
  pub helper_unit : text_eq plan.helper plan.unit ≡ false
  pub mihomo_helper : text_eq plan.mihomo plan.helper ≡ false
  pub mihomo_ping : text_eq plan.mihomo plan.ping ≡ false
  pub mihomo_unit : text_eq plan.mihomo plan.unit ≡ false
  pub ping_helper : text_eq plan.ping plan.helper ≡ false
  pub ping_mihomo : text_eq plan.ping plan.mihomo ≡ false
  pub ping_unit : text_eq plan.ping plan.unit ≡ false
  pub unit_helper : text_eq plan.unit plan.helper ≡ false
  pub unit_mihomo : text_eq plan.unit plan.mihomo ≡ false
  pub unit_ping : text_eq plan.unit plan.ping ≡ false

abbrev pub plan_for : (install_dir payload unit unit_text verb : Text) → Plan
plan_for install_dir payload unit unit_text verb = record {
  payload = payload;
  helper = join install_dir helper_name;
  mihomo = join install_dir mihomo_name;
  ping = join install_dir ping_name;
  unit = unit;
  unit_text = unit_text;
  verb = verb;
}
