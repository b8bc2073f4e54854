-- ===== src/Manager/Quarantine/Tests.antt =====
-- Two uncertain epochs, of which the reaper confirms one.
use nyanpasu_service.Prelude.{
  ◌≢◌, some, ℕ, ◌≡◌, refl, Bool, true, false, none, [], ◌∷◌, ◌==◌, if◌then◌else◌,
}
use nyanpasu_service.Text.{Text, bytes}
use nyanpasu_service.Error.{Error, ok}
use nyanpasu_service.Kind.{ClashCoreKind}
use nyanpasu_service.Health.{default_policy}
use nyanpasu_service.State.{InstanceState, Host, initial_status}
use nyanpasu_service.Instance.Stop.{ReapOutcome}
use nyanpasu_service.Manager.Ctrl.{QuarantinedEpoch, Active, Manager, without}
use nyanpasu_service.Manager.Ownership.{IsOwned, is_current, is_quarantined, is_live}
use nyanpasu_service.Manager.Quarantine.{Recovery, recover_quarantine}
use nyanpasu_service.Manager.Quarantine.Published.{SaysStopped, recover_quarantine-SaysStopped}
use nyanpasu_service.Manager.Quarantine.Uncertain.{recover_quarantine-IsOwned}

abbrev silent : Error → Text
silent e = bytes "error"

abbrev uncertain : ℕ → Bool → QuarantinedEpoch
uncertain epoch death_proven = record {
  epoch = epoch;
  reason = bytes "stop";
  death_proven = death_proven;
}

abbrev two_uncertain : Manager
two_uncertain = record {
  current = none;
  last_spec = none;
  quarantine = uncertain 3 true ∷ uncertain 4 false ∷ uncertain 5 false ∷ [];
  status = initial_status 0;
  epoch = 5;
  log_sink = true;
  artifacts = 3 ∷ 4 ∷ 5 ∷ [];
  live = 4 ∷ 5 ∷ [];
}

abbrev only_four : Recovery
only_four = record {
  reap = λ epoch. if epoch == 4 then ok ReapOutcome.killed else ok ReapOutcome.not_found;
  cleanup = λ epoch. ok tt;
}

owned : IsOwned two_uncertain
unfolding is_current is_quarantined is_live
owned = ((refl, (refl, tt)), ((λ h. refl), ((λ h. cc), ((λ h. cc), tt))))

five_stays : (recover_quarantine silent two_uncertain only_four 9).0.live ≡ (5 ∷ [])
unfolding recover_quarantine without
five_stays = refl

recover_quarantine-IsOwned_example :
    IsOwned ((recover_quarantine silent two_uncertain only_four 9).0)
    × ((recover_quarantine silent two_uncertain only_four 9).1 ≡ ok tt
        → (recover_quarantine silent two_uncertain only_four 9).0.quarantine ≡ [])
recover_quarantine-IsOwned_example =
    recover_quarantine-IsOwned silent only_four two_uncertain 9 owned

-- A core that was kept while the next one became uncertain.
abbrev kept : Active
kept = record {
  instance_of = record {
    epoch = 3;
    status = record { state = InstanceState.running 7; health = none };
    host = Host.unix_socket (bytes "/run/core.sock");
  };
  source_spec = record {
    core = record {
      kind = ClashCoreKind.mihomo;
      binary_path = bytes "/mihomo";
      version = none;
      features = [];
    };
    config_path = bytes "/config.yaml";
    working_dir = bytes "/";
    pid_file = none;
    options = record { startup_timeout = 100; health = default_policy };
  };
  revision = record {
    epoch = 3;
    generation = 1;
    source_hash = bytes "a";
    effective_hash = bytes "b";
    runtime_path = bytes "/3.yaml";
  };
  capabilities = [];
  runtime_features = [];
}

abbrev running_still : Manager
running_still = record two_uncertain {
  current = some kept;
  quarantine = uncertain 4 false ∷ [];
  live = 3 ∷ 4 ∷ [];
}

four_is_killed : (recover_quarantine silent running_still only_four 9).1 ≡ ok tt
unfolding recover_quarantine
four_is_killed = refl

not_empty : running_still.quarantine ≢ []
not_empty = cc

recover_quarantine-SaysStopped_example :
    SaysStopped ((recover_quarantine silent running_still only_four 9).0)
    × ((recover_quarantine silent running_still only_four 9).0.current ≡ some kept)
recover_quarantine-SaysStopped_example =
    recover_quarantine-SaysStopped silent only_four running_still 9 not_empty four_is_killed
