-- ===== src/Scenarios/Fc3Rounds.antt =====
-- Rounds for a binding to a custom domain.
use le_to_alicloud.Prelude.{
  ◌≡◌, ◌⊎◌, refl, true, false, not, ◌&&◌, some, [], ◌∷◌, codes, ok, text_eq, has_prefix, trim_space,
  to_upper, split_comma, lookup, store,
}
use le_to_alicloud.Api.Conditions.{Reason, ready, applied, conflict}
use le_to_alicloud.Pki.Bundle.{leaf_fingerprint}
use le_to_alicloud.Provider.Interface.{ObservedState, Client, fc3_client, get}
use le_to_alicloud.Provider.Fc3.{
  parts_of, split_protocol, protocol_has_https, apply_input, fc3_client_of, fc3_observe, fc3_apply,
  fc3_capabilities, fc3_provider,
}
use le_to_alicloud.Provider.Fc3.RoundTrip.{fc3_observe-fc3_apply}
use le_to_alicloud.Aliyun.Fake.Queue.{pop}
use le_to_alicloud.Aliyun.Fake.Fc3.{
  FakeFc3, fake_fc3_client, custom_domain_of, get_custom_domain, validate_update, updated_domain,
  commit, update_stored, update_custom_domain,
}
use le_to_alicloud.Controller.Binding.World.{BindingRound, count_drift, event_warning}
use le_to_alicloud.Controller.Binding.World.Traces.{applies}
use le_to_alicloud.Controller.Binding.Identity.{capabilities_of, ensure_https_of}
use le_to_alicloud.Controller.Binding.Status.{
  binding_cond_true, binding_cond_reason, aggregate_binding_ready,
}
use le_to_alicloud.Controller.Binding.Status.Ready.{
  OnlyReady, ready_reason, aggregate_binding_ready-Ready,
}
use le_to_alicloud.Controller.Binding.Observe.{protocol_satisfied, note_drift}
use le_to_alicloud.Controller.Binding.Observe.Drift.{
  by_reference, recorded, drifted_to, drifted, IsKnown, IsForeign, note_drift-drift,
}
use le_to_alicloud.Controller.Binding.Look.{on_target}
use le_to_alicloud.Controller.Binding.Observe.Protocol.{protocol_satisfied-protocol_has_https}
use le_to_alicloud.Controller.Binding.Reconcile.{compare_target, reconcile_binding}
use le_to_alicloud.Controller.Binding.Reconcile.Record.{KeptOrConfirmed, compare_target-Sent}
use le_to_alicloud.Controller.Binding.Reconcile.Sent.{SentOne}
use le_to_alicloud.Controller.Binding.Reconcile.Round.{Started, WroteFor, reconcile_binding-Wrote}
use le_to_alicloud.Controller.Binding.Reconcile.Converges.{compare_target-settled}
use le_to_alicloud.Scenarios.Data.{test_meta}
use le_to_alicloud.Scenarios.Toy.{toy_crypto}
use le_to_alicloud.Scenarios.Fakes.{
  binding_env, test_fc3, fc3_binding, test_target, test_material, https_options, written_fc3,
  round_of,
}

-- the state that the FC3 provider observes of `test_domain` with another certificate
abbrev foreign : ObservedState
foreign = record {
  current_fingerprint = codes "foreign";
  current_cert_ref = [];
  protocol = codes "http,https";
  account_id = codes "1234";
}

abbrev test_client : Client FakeFc3
test_client = fc3_client fake_fc3_client

abbrev first_round : BindingRound FakeFc3
first_round = round_of fc3_binding test_fc3

reconcile_binding-Wrote_example :
    (applies (reconcile_binding binding_env [] test_fc3).1.0 ≡ [])
    ⊎ ((s : BindingRound FakeFc3) × Started binding_env [] test_fc3 s
        × WroteFor binding_env s [] (applies (reconcile_binding binding_env [] test_fc3).1.0))
reconcile_binding-Wrote_example = reconcile_binding-Wrote binding_env [] test_fc3

compare_target-Sent_example :
    SentOne binding_env
      (KeptOrConfirmed binding_env
        (fc3_provider toy_crypto)
        test_client
        test_target
        test_material
        foreign
        fc3_binding)
      first_round
      (compare_target binding_env
        (fc3_provider toy_crypto)
        test_client
        test_target
        test_material
        foreign
        first_round).1
compare_target-Sent_example =
    compare_target-Sent binding_env (fc3_provider toy_crypto) test_client test_target test_material
      foreign first_round

written_fc3_lem :
    (fc3_apply test_target test_client test_material https_options test_fc3 ≡ (ok tt, written_fc3))
    × (written_fc3.get_errs ≡ [])
unfolding fc3_apply fc3_client_of get_custom_domain pop lookup text_eq update_custom_domain
    update_stored validate_update apply_input protocol_has_https split_protocol split_comma
    custom_domain_of to_upper trim_space commit updated_domain store has_prefix parts_of
written_fc3_lem = (refl, refl)

test_material-print :
    leaf_fingerprint toy_crypto test_material.cert_pem ≡ ok test_material.fingerprint
unfolding leaf_fingerprint text_eq
test_material-print = refl

fc3_binding-capabilities : capabilities_of binding_env.registry fc3_binding ≡ fc3_capabilities
unfolding capabilities_of get fc3_provider text_eq
fc3_binding-capabilities = refl

fc3_observe-fc3_apply_example :
    (obs : ObservedState) × ((fc3_observe toy_crypto test_target test_client written_fc3).0
      ≡ ok obs)
    × (obs.current_fingerprint ≡ codes "0123abcdder")
    × (obs.account_id ≡ codes "1234")
    × ((true ≡ false) ⊎ (protocol_has_https obs.protocol ≡ true))
fc3_observe-fc3_apply_example =
    fc3_observe-fc3_apply toy_crypto test_target test_material https_options test_fc3 written_fc3
      written_fc3_lem.0 written_fc3_lem.1 refl test_material-print

compare_target-settled_example :
    (obs : ObservedState) × ((fc3_observe toy_crypto test_target test_client written_fc3).0
      ≡ ok obs)
    × (applies
          (compare_target binding_env
            (fc3_provider toy_crypto)
            test_client
            test_target
            test_material
            obs
            first_round).1.trace
        ≡ [])
unfolding ensure_https_of
compare_target-settled_example =
    compare_target-settled binding_env (fc3_provider toy_crypto) test_target test_material
      https_options test_fc3 written_fc3 first_round fc3_binding-capabilities refl written_fc3_lem.0
      written_fc3_lem.1 refl test_material-print

aggregate_binding_ready-Ready_example :
    (binding_cond_true test_meta (aggregate_binding_ready test_meta fc3_binding) ready ≡ (
      binding_cond_true test_meta fc3_binding applied
      && not (binding_cond_true test_meta fc3_binding conflict)))
    × (binding_cond_reason test_meta (aggregate_binding_ready test_meta fc3_binding) ready
        ≡ some (ready_reason test_meta fc3_binding))
    × OnlyReady test_meta fc3_binding (aggregate_binding_ready test_meta fc3_binding) applied
aggregate_binding_ready-Ready_example = aggregate_binding_ready-Ready test_meta fc3_binding applied

note_drift-drift_example :
    let after = (note_drift binding_env foreign test_material first_round).1 in
    let current = on_target binding_env fc3_binding foreign in
    let before = recorded (by_reference binding_env fc3_binding) fc3_binding in
    IsKnown binding_env fc3_binding foreign test_material
      × (after.b ≡ drifted_to [] [] fc3_binding)
      × (after.trace ≡ [])
    ⊎ (IsForeign binding_env fc3_binding foreign test_material
        × (after.b ≡ drifted binding_env current fc3_binding)
        × ((text_eq before current ≡ true) × (after.trace ≡ [])
            ⊎ ((text_eq before current ≡ false)
                × (after.trace
                    ≡ event_warning Reason.drift_corrected
                      ∷ count_drift (codes "FC3CustomDomain")
                      ∷ []))))
note_drift-drift_example = note_drift-drift binding_env foreign test_material first_round

protocol_satisfied-protocol_has_https_example :
    protocol_satisfied foreign true ≡ protocol_has_https (codes "http,https")
protocol_satisfied-protocol_has_https_example = protocol_satisfied-protocol_has_https foreign
