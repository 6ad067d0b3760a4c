-- ===== src/Tests/EscrowRuns.antt =====
-- A store that counts its captures, over one instance of two volumes.
use hasteward.Prelude.{
  ℕ, suc, String, ◌≡◌, refl, sym, ap, ◌∙◌, true, false, Option, none, some, List, [], ◌∷◌, map,
}
use hasteward.Escrow.{
  Config, EscrowRef, EscrowProvider, IsLawful, AllVerified, pvc_names, Storage, Choice, selected,
  Backend, RecoverySet, PodRead, found, exceeds, prepare, capture, gate, any_live_writer,
  first_with_driver, match_snapshot_class, select_provider, add_pvc, add_all, discover_from,
  discover_pvcs, used_bytes_by_pvc,
}
use hasteward.Escrow.Guard.{IsPrepared, gate-AllVerified}
use hasteward.Escrow.Selecting.{IsJustified, select_provider-IsJustified}

abbrev pub cfg : Config
cfg = record {
  cluster_name = "pg";
  namespace = "db";
  backups_path = "/backups";
  restic_password = "secret";
  snapshot_class = "";
  no_escrow = false;
}

abbrev pub ref_of : String → EscrowRef
ref_of pvc = record { provider = "csi"; id = pvc; pvc = pvc; verified = false }

abbrev pub proven : EscrowRef → EscrowRef
proven r = record r { verified = true }

abbrev pub csi : EscrowProvider ℕ
csi = record {
  name = "csi";
  capture = λ set n. (some (map ref_of set), suc n);
  verify = λ refs n. (map proven refs, true, n);
  estimate_capture_bytes = λ set used. 4096;
  available_bytes = some 2000000000;
}

abbrev pub store : Option ℕ → Backend ℕ
store outstanding = record {
  selection = λ set. selected (Choice.snapshot "csi-class");
  provider_of = λ c. csi;
  outstanding = outstanding;
}

refs-names : (set : List String) → pvc_names (map ref_of set) ≡ set
refs-names [] = refl
refs-names (x ∷ xs) = ap (λ l. x ∷ l) (refs-names xs)

proven-names : (refs : List EscrowRef) → pvc_names (map proven refs) ≡ pvc_names refs
proven-names [] = refl
proven-names (r ∷ rs) = ap (λ l. r.pvc ∷ l) (proven-names rs)

proven-AllVerified : (refs : List EscrowRef) → AllVerified (map proven refs)
proven-AllVerified [] = tt
proven-AllVerified (r ∷ rs) = (refl, proven-AllVerified rs)

some-same : {x y : List EscrowRef} → some x ≡ some y → x ≡ y
some-same {x} e = ap (λ (o : Option (List EscrowRef)). elim o [ none ↦ x | some a ↦ a ]) e

pub csi-IsLawful : IsLawful csi
csi-IsLawful = record {
  captures_each = λ set s refs h. ap pvc_names (sym (some-same h)) ∙ refs-names set;
  verifies_each = λ refs s h. proven-AllVerified refs;
  keeps_each = λ refs s. proven-names refs;
}

abbrev pub volumes : List String
volumes = "pg-2" ∷ "pg-2-wal" ∷ []

abbrev pub captures : List EscrowRef
captures = map proven (map ref_of volumes)

gate-AllVerified_example :
    AllVerified captures
    × (pvc_names captures ≡ volumes)
    × ((r : RecoverySet ℕ) × IsPrepared (store (some 0)) volumes [] r)
unfolding exceeds prepare capture gate any_live_writer first_with_driver match_snapshot_class
    select_provider add_pvc add_all discover_from discover_pvcs used_bytes_by_pvc
gate-AllVerified_example =
    gate-AllVerified cfg (store (some 0)) volumes [] 5 captures (λ c. csi-IsLawful) refl refl

-- The pods of the instance: one mounts both volumes and is ready.
abbrev storage : Storage
storage = record {
  pods = some (record { name = "pg-2"; claims = volumes; ready = true ∷ [] } ∷ []);
  class_of = λ pvc. some (some "fast");
  provisioner_of = λ class. some "csi.example";
  snapshot_classes = some (record { name = "snap"; driver = "csi.example" } ∷ []);
}

prefers_snapshot : select_provider cfg storage volumes ≡ selected (Choice.snapshot "snap")
unfolding exceeds prepare capture gate any_live_writer first_with_driver match_snapshot_class
    select_provider add_pvc add_all discover_from discover_pvcs used_bytes_by_pvc
prefers_snapshot = refl

select_provider-IsJustified_example :
    IsJustified cfg storage "pg-2" ("pg-2-wal" ∷ []) (select_provider cfg storage volumes)
select_provider-IsJustified_example =
    select_provider-IsJustified cfg storage "pg-2" ("pg-2-wal" ∷ [])

abbrev pub pod_of : String → PodRead
pod_of pod = found volumes
