-- ===== src/Bin/Install/Linux/Registration.antt =====
-- src/bin/sc_helper_install.rs: when the installer for Linux registers the service.
use sc_helper.Prelude.{◌≡◌, refl, Bool, true, false, some, [], ◌∷◌, Text, codes}
use sc_helper.Prelude.Program.{ok}
use sc_helper.Prelude.Triple.{
  Ensures, Meets, Meets-bind, Meets-then, Meets-if, Meets-pure, Meets-fail, Meets-weaken,
}
use sc_helper.Std.Path.{join, parent}
use sc_helper.Paths.Linux.{systemd_unit_path, helper_install_dir}
use sc_helper.Bin.Files.{Status, Calls, Files, printed}
use sc_helper.Bin.Files.Known.{IsLawfulFiles, refused_last}
use sc_helper.Bin.Install.{locate, payload_dir}
use sc_helper.Bin.Install.Ready.{
  Plan, first_is, registered, plan_for, IsCareful, IsExcused, IsApart,
}
use sc_helper.Bin.Install.Steps.{IsStable, say-Meets, make_dir-Meets, check_payload-Meets}
use sc_helper.Bin.Install.Laws.{careful, write_unit-Meets}
use sc_helper.Bin.Install.Placed.{copy_payload-Meets, set_perms-Meets}
use sc_helper.Bin.Install.Registered.{
  Placed, Registered, Placed-IsStable, Registered-IsStable, run-Meets, unload-Meets,
}
use sc_helper.Bin.Install.Linux.{
  report_reload, report_enable, register, install_from, main, systemctl, enable_args, disable_args,
  owner, unload_notice,
}
use sc_helper.Bin.Install.Unit.{unit_body}

-- What this installer puts where, from this directory.
abbrev pub plan_from : Text → Plan
plan_from payload = plan_for helper_install_dir payload systemd_unit_path unit_body (codes "enable")

-- The status that the installer takes for a success.
abbrev pub accepts : Status → Bool
accepts s = s.success

module _ (fs : Files) (payload : Text) where
  abbrev plan : Plan
  plan = plan_from payload

  abbrev Taken : Calls → Type 0
  Taken = Registered fs plan accepts

  stable : IsStable Taken
  stable = Registered-IsStable fs plan accepts

  apart : IsApart plan
  unfolding join
  apart = record {
    helper_mihomo = refl;
    helper_ping = refl;
    helper_unit = refl;
    mihomo_helper = refl;
    mihomo_ping = refl;
    mihomo_unit = refl;
    ping_helper = refl;
    ping_mihomo = refl;
    ping_unit = refl;
    unit_helper = refl;
    unit_mihomo = refl;
    unit_ping = refl;
  }

  first : first_is plan.verb enable_args ≡ true
  first = refl

  not_first : first_is plan.verb disable_args ≡ false
  not_first = refl

  report_reload-Meets :
      (s : Status) → Meets (Placed fs plan) (report_reload s) (λ _. Placed fs plan) (IsExcused plan)
  unfolding report_reload
  report_reload-Meets s =
      Meets-if s.success (λ _. Meets-pure tt (λ t h. h))
        (λ _. say-Meets fs (Placed-IsStable fs plan) _)

  report_enable-Meets :
      (s : Status)
      → Meets
          (λ t.
            (s.success ≡ false → refused_last t ≡ true)
            × (s.success ≡ true → registered accepts plan.verb t ≡ true)
            × Placed fs plan t)
          (report_enable s)
          (λ _. Taken)
          (IsExcused plan)
  unfolding report_enable
  report_enable-Meets s =
      Meets-if s.success
        (λ good. Meets-weaken (λ t h. (h.1 good, h.2)) (λ _ t h. h) (say-Meets fs stable _))
        (λ bad. Meets-fail _ (λ t h. (h.2.1, h.0 bad)))

  register-Meets : Meets (Placed fs plan) (register fs) (λ _. Taken) (IsExcused plan)
  unfolding register
  register-Meets =
      Meets-bind (run-Meets fs plan accepts systemctl (codes "daemon-reload" ∷ []) _) λ s.
        Meets-then (Meets-weaken (λ t h. h.2) (λ _ t h. h) (report_reload-Meets s)) (
          Meets-bind (run-Meets fs plan accepts systemctl enable_args _) λ s'.
            Meets-then
              (Meets-weaken (λ t h. (h.0, h.1 first, h.2)) (λ _ t h. h) (report_enable-Meets s'))
              (say-Meets fs stable _))

  pub install_from-Meets :
      IsLawfulFiles fs
      → Meets (IsCareful plan) (install_from fs payload) (λ _. Taken) (IsExcused plan)
  unfolding install_from
  install_from-Meets lawful =
      Meets-then (check_payload-Meets fs (careful plan) (λ t h e. (h, e)) payload) (
        Meets-then
          (unload-Meets fs plan unload_notice systemd_unit_path systemctl disable_args not_first)
          (Meets-then (make_dir-Meets fs (careful plan) (λ t h e. (h, e)) helper_install_dir) (
            Meets-then
              (copy_payload-Meets fs lawful helper_install_dir payload systemd_unit_path unit_body
                plan.verb apart)
              (Meets-then (write_unit-Meets fs plan apart (codes "systemd unit")) (
                Meets-then
                  (set_perms-Meets fs lawful helper_install_dir payload systemd_unit_path unit_body
                    plan.verb apart owner)
                  register-Meets)))))

-- On a system that finds the files that were put there, an installer for Linux that stands in some
-- directory ends, whatever else its calls answer. At any time at which it asked the service manager
-- to take the service up, the helper was the copy of the one in that directory, the service's
-- description was the intended text, helper and description were root's with modes 755 and 644, and
-- so was each of sc-mihomo and sc-helper-ping, with mode 755, if it had been put beside the helper.
-- It ends with an error only when its last call was refused. When it ends without one, the command
-- that asks for it succeeded, and all of this still holds.
pub main-Registered_linux :
    (fs : Files) (me payload : Text)
    → IsLawfulFiles fs
    → ((t : Calls) → fs.current_exe t ≡ ok me)
    → parent me ≡ some payload
    → Ensures
        (λ _. Registered fs (plan_from payload) accepts)
        (IsExcused (plan_from payload))
        (main fs [])
unfolding main locate payload_dir IsCareful
main-Registered_linux fs me payload lawful exe dir =
    rw (exe (printed _ ∷ []), dir) ((install_from-Meets fs payload lawful).apply _ tt)
