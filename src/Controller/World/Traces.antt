-- ===== src/Controller/World/Traces.antt =====
-- What a trace shows: the uploads and the deletions in it, newest first.
use le_to_alicloud.Prelude.{ℕ, List, [], ◌∷◌, Text}
use le_to_alicloud.Controller.World.{
  Call, cas_upload, cas_delete, update_ac, delete_cm, delete_secret, sync_cm, Trace,
}

-- name and token of each upload
abbrev pub uploads : Trace → List (Text × Text)
uploads [] = []
uploads (cas_upload name cert key token ∷ t) = (name, token) ∷ uploads t
uploads (_ ∷ t) = uploads t

abbrev pub deletions : Trace → List (ℕ × Text)
deletions [] = []
deletions (cas_delete id token ∷ t) = (id, token) ∷ deletions t
deletions (_ ∷ t) = deletions t

-- The calls that take an object out of the cluster: the deletion of a Certificate or a Secret, and
-- the update of the CR, which a deletion makes to remove its finalizer.
abbrev pub finishing : Trace → List Call
finishing [] = []
finishing (update_ac ∷ t) = update_ac ∷ finishing t
finishing (delete_cm name ∷ t) = delete_cm name ∷ finishing t
finishing (delete_secret name ∷ t) = delete_secret name ∷ finishing t
finishing (_ ∷ t) = finishing t

-- the syncs of a cert-manager Certificate
abbrev pub syncs : Trace → List Text
syncs [] = []
syncs (sync_cm name ∷ t) = name ∷ syncs t
syncs (_ ∷ t) = syncs t
