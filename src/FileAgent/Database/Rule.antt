-- ===== src/FileAgent/Database/Rule.antt =====
-- `build_subscriber_rule`: what it filters by.
use oci_iot_samples.Base.{given, String, ◌≡◌, ◌↔◌, Option, none, arith}
use oci_iot_samples.Base.Exec.{ok}
use oci_iot_samples.FileAgent.Database.{
  Database, and_rule, rule_instance, add_condition, build_subscriber_rule,
}

-- When a rule is built without an exception: there is no rule (the subscriber then filters nothing)
-- exactly if neither an instance id nor a display name nor a content path was given that is not empty.
build_subscriber_rule-none :
    {W : Type 0} (db : Database W) (domain : String)
    (instance_id display_name content_path : Option String) (w w' : W) (rule : Option String)
    → build_subscriber_rule db domain instance_id display_name content_path w ≡ (ok rule, w')
    → (rule ≡ none)
      ↔ ((given instance_id ≡ none) × (given display_name ≡ none) × (given content_path ≡ none))
unfolding build_subscriber_rule rule_instance add_condition and_rule
build_subscriber_rule-none db domain instance_id display_name content_path w w' rule h =
    ground arith
