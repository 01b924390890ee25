-- ===== src/Attachments/Site.antt =====
-- The whole of the attachment storage in motion: the calls of the lifecycle, uploads, the stages of
-- the one collector (claim, removal of the object, last transaction, or giving up) and the scan of
-- the objects, in any order.
use voidchats_note2ee.Common.{ℕ, Option, none, some, List, [], ◌∷◌}
use voidchats_note2ee.Attachments.Rows.{Db, Config}
use voidchats_note2ee.Attachments.References.{Texts}
use voidchats_note2ee.Attachments.ObjectKeys.{Text}
use voidchats_note2ee.Attachments.Blobs.{
  World, Upload, Machine, remove_object, stage_uploaded_attachments,
}
use voidchats_note2ee.Attachments.Collecting.{Claim, claim_blob, drop_blob, scan_object}
use voidchats_note2ee.Attachments.Steps.{Call, step}

-- `claim` is what the collector holds between its two transactions.
pub record Site : Type 0 where
  pub world : World
  pub claim : Option Claim

pub data Event : Type 0 where
  calls : Call → Event
  uploads : (user conversation : ℕ) → List Upload → Event
  claims : (blob : ℕ) → Event
  removes finishes abandons : Event
  scans : (key hash : Text) → Event

abbrev pub with_db : World → Db → World
with_db w db = record w { db = db }

-- The collector claims only when it holds nothing.
abbrev pub claim_next : (grace now b : ℕ) → Option Claim → World → Site
claim_next grace now b (some c) w = record { world = w; claim = some c }
claim_next grace now b none w = record {
  world = with_db w (claim_blob grace now b w.db).1;
  claim = (claim_blob grace now b w.db).0;
}

abbrev pub remove_claimed : Option Claim → World → World
remove_claimed none w = w
remove_claimed (some c) w = record w { objects = remove_object c.bucket c.object_key w.objects }

abbrev pub drop_claimed : Option Claim → World → World
drop_claimed none w = w
drop_claimed (some c) w = with_db w (drop_blob c.blob_id w.db).1

module _ (texts : Texts) (config : Config) (machine : Machine) (bucket : ℕ) where
  unfoldable pub happen : (now : ℕ) → Event → Site → Site
  happen now (calls call) s = record s {
    world = with_db s.world (step texts config now call s.world.db);
  }
  happen now (uploads user conversation files) s = record s {
    world =
        (stage_uploaded_attachments config machine bucket now user conversation files s.world).1;
  }
  happen now (claims b) s = claim_next config.blob_gc_grace_seconds now b s.claim s.world
  happen now removes s = record s { world = remove_claimed s.claim s.world }
  happen now finishes s = record { world = drop_claimed s.claim s.world; claim = none }
  happen now abandons s = record s { claim = none }
  happen now (scans key hash) s = record s {
    world = (scan_object config.blob_gc_grace_seconds now bucket key hash s.world).1;
  }

  unfoldable pub history : List (ℕ × Event) → Site → Site
  history [] s = s
  history ((now, event) ∷ rest) s = history rest (happen now event s)
