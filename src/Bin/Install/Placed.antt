-- ===== src/Bin/Install/Placed.antt =====
-- From the copies to the point where the service may be registered.
use sc_helper.Prelude.{Text}
use sc_helper.Prelude.Triple.{Meets, Meets-then, Meets-weaken}
use sc_helper.Std.Path.{join}
use sc_helper.Bin.Files.{Calls, Files}
use sc_helper.Bin.Files.Known.{content_at, IsSecured, IsLawfulFiles}
use sc_helper.Bin.Install.{executable, readable, copy_payload, set_perms, mihomo_name, ping_name}
use sc_helper.Bin.Install.Ready.{Plan, plan_for, IsGuarded, IsReady, IsCareful, IsExcused, IsApart}
use sc_helper.Bin.Install.Steps.{IsStable, both, secured, guarded, say-Meets}
use sc_helper.Bin.Install.Perms.{
  Spares, IsSecured-chowned, IsSecured-chmodded, secure-Meets, secure_optional-Meets,
}
use sc_helper.Bin.Install.Laws.{
  Copied, Written, Written-IsStable, copy_helper-Meets, copy_optional-Meets,
}

module _ (fs : Files) (lawful : IsLawfulFiles fs) (install_dir payload unit unit_text verb : Text)
    (apart : IsApart (plan_for install_dir payload unit unit_text verb)) where
  abbrev plan : Plan
  plan = plan_for install_dir payload unit unit_text verb

  pub copy_payload-Meets :
      Meets
        (IsCareful plan)
        (copy_payload fs payload install_dir)
        (λ _. Copied plan)
        (IsExcused plan)
  unfolding copy_payload
  copy_payload-Meets = Meets-then (copy_helper-Meets fs plan) (
      Meets-then
        (copy_optional-Meets fs plan mihomo_name (join payload mihomo_name) plan.mihomo
          apart.helper_mihomo)
        (copy_optional-Meets fs plan ping_name (join payload ping_name) plan.ping
          apart.helper_ping))

  abbrev HelperSecured : Calls → Type 0
  HelperSecured t = IsSecured executable plan.helper t × Written plan t

  abbrev MihomoGuarded : Calls → Type 0
  MihomoGuarded t = IsGuarded plan.mihomo t × HelperSecured t

  abbrev PingGuarded : Calls → Type 0
  PingGuarded t = IsGuarded plan.ping t × MihomoGuarded t

  abbrev UnitSecured : Calls → Type 0
  UnitSecured t = IsSecured readable plan.unit t × PingGuarded t

  helper_stable : IsStable HelperSecured
  helper_stable = both (secured executable plan.helper) (Written-IsStable plan)

  mihomo_stable : IsStable MihomoGuarded
  mihomo_stable = both (guarded plan.mihomo) helper_stable

  ping_stable : IsStable PingGuarded
  ping_stable = both (guarded plan.ping) mihomo_stable

  unit_stable : IsStable UnitSecured
  unit_stable = both (secured readable plan.unit) ping_stable

  Spares-Written : Spares plan plan.helper executable (Written plan)
  unfolding content_at IsCareful
  Spares-Written = record {
    stable = Written-IsStable plan;
    careful = λ t h. h.1.1;
    chown_keeps = λ t h. h;
    chmod_keeps = λ t h. h;
  }

  Spares-helper : Spares plan plan.mihomo executable HelperSecured
  unfolding content_at IsCareful
  Spares-helper = record {
    stable = helper_stable;
    careful = λ t h. h.1.1.1;
    chown_keeps = λ t h.
        (IsSecured-chowned executable plan.helper plan.mihomo t apart.helper_mihomo h.0, h.1);
    chmod_keeps = λ t h. (
      IsSecured-chmodded executable executable plan.helper plan.mihomo t apart.helper_mihomo h.0,
      h.1,
    );
  }

  Spares-mihomo : Spares plan plan.ping executable MihomoGuarded
  unfolding content_at IsCareful
  Spares-mihomo = record {
    stable = mihomo_stable;
    careful = λ t h. h.1.1.1.1;
    chown_keeps = λ t h. (
      (λ put. IsSecured-chowned executable plan.mihomo plan.ping t apart.mihomo_ping (h.0 put)),
      (IsSecured-chowned executable plan.helper plan.ping t apart.helper_ping h.1.0, h.1.1),
    );
    chmod_keeps = λ t h. (
      (λ put.
          IsSecured-chmodded executable executable plan.mihomo plan.ping t apart.mihomo_ping
            (h.0 put)),
      (
        IsSecured-chmodded executable executable plan.helper plan.ping t apart.helper_ping h.1.0,
        h.1.1,
      ),
    );
  }

  Spares-ping : Spares plan plan.unit readable PingGuarded
  unfolding content_at IsCareful
  Spares-ping = record {
    stable = ping_stable;
    careful = λ t h. h.1.1.1.1.1;
    chown_keeps = λ t h. (
      (λ put. IsSecured-chowned executable plan.ping plan.unit t apart.ping_unit (h.0 put)),
      (
        (λ put. IsSecured-chowned executable plan.mihomo plan.unit t apart.mihomo_unit (h.1.0 put)),
        (IsSecured-chowned executable plan.helper plan.unit t apart.helper_unit h.1.1.0, h.1.1.1),
      ),
    );
    chmod_keeps = λ t h. (
      (λ put.
          IsSecured-chmodded executable readable plan.ping plan.unit t apart.ping_unit (h.0 put)),
      (
        (λ put.
            IsSecured-chmodded executable readable plan.mihomo plan.unit t apart.mihomo_unit
              (h.1.0 put)),
        (
          IsSecured-chmodded executable readable plan.helper plan.unit t apart.helper_unit h.1.1.0,
          h.1.1.1,
        ),
      ),
    );
  }

  ready : (t : Calls) → UnitSecured t → IsReady plan t × IsCareful plan t
  ready t (unit_done, (ping_done, (mihomo_done, (helper_done, (is_written, (is_copied, c)))))) =
      ((is_copied, is_written, helper_done, mihomo_done, ping_done, unit_done), c)

  pub set_perms-Meets :
      (owner : Text)
      → Meets
          (Written plan)
          (set_perms fs owner install_dir unit)
          (λ _ t. IsReady plan t × IsCareful plan t)
          (IsExcused plan)
  unfolding set_perms
  set_perms-Meets owner =
      Meets-weaken (λ t h. h) (λ _. ready)
        (Meets-then (secure-Meets fs plan owner plan.helper executable Spares-Written) (
          Meets-then (secure_optional-Meets fs plan lawful owner plan.mihomo Spares-helper) (
            Meets-then (secure_optional-Meets fs plan lawful owner plan.ping Spares-mihomo) (
              Meets-then (secure-Meets fs plan owner plan.unit readable Spares-ping)
                (say-Meets fs unit_stable _)))))
