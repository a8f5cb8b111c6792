-- ===== src/Lifecycle/Completion/Metadata.antt =====
-- policy_lifecycle_workflow.go: the metadata that UpdatePolicyMetadataActivity has been asked to
-- write, as the database holds it.
use revival_integration.Base.{Option, none, some, List, [], ◌∷◌, String, lookup}
use revival_integration.Lifecycle.Command.{Command, MetadataValue}

abbrev or_else : Option MetadataValue → Option MetadataValue → Option MetadataValue
or_else none d = d
or_else (some v) _ = some v

-- The value that the newest of the commands gave to the key, if one of them did.
abbrev pub written : String → List Command → Option MetadataValue
written key [] = none
written key (Command.update_policy_metadata u ∷ cs) =
    or_else (lookup key u.updates) (written key cs)
written key (_ ∷ cs) = written key cs
