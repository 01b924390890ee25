-- ===== src/Attachments/Steps.antt =====
-- Every operation on the attachments as a step, and a history as a list of steps. The worker of
-- VOID0000-api/server/entrypoints/worker-server.ts gives the reconciler the reservation's time
-- as the fresh time of a returned file.
use voidchats_note2ee.Common.{ℕ, ◌≡◌, refl, Bool, true, false, if◌then◌else◌, List, [], ◌∷◌}
use voidchats_note2ee.Attachments.Rows.{
  Db, Config, ReservationIdentity, Verdict, given, failed, broken, ◌>>=◌,
}
use voidchats_note2ee.Attachments.Reserving.{reserve_for_message}
use voidchats_note2ee.Attachments.References.{Texts}
use voidchats_note2ee.Attachments.Writing.{
  acknowledge_scylla_write, commit_reservation, commit_recovered_reservation, StoredRow,
  release_reservation, delete_staged_attachment,
}
use voidchats_note2ee.Attachments.Groups.{Group}
use voidchats_note2ee.Attachments.Reconciling.{mark_committed, release_to_staged}
use voidchats_note2ee.Attachments.Expiring.{expire_one}

pub data Call : Type 0 where
  reserves acknowledges commits releases : ReservationIdentity → Call
  recovers : ReservationIdentity → StoredRow → Call
  settles restages : Group → Call
  deletes : (attachment user conversation : ℕ) → Call
  expires : (attachment : ℕ) → Call

-- The state after a call: a failed one is rolled back.
abbrev pub after {ℓ} : {A : Type ℓ} → Db → Verdict (A × Db) → Db
after db (given (a, db')) = db'
after db (failed status code) = db
after db broken = db

-- What holds of the state before a call and after each of its ends holds after it.
module _ {ℓ κ} {A : Type ℓ} (P : Db → Type κ) (db : Db) where
  pub after_if :
      (test : Bool) (x y : Verdict (A × Db))
      → (test ≡ true → P (after db x))
      → (test ≡ false → P (after db y))
      → P (after db (if test then x else y))
  after_if true x y yes_case no_case = yes_case refl
  after_if false x y yes_case no_case = no_case refl

  pub after_bind {ι} :
      {B : Type ι} (m : Verdict B) (f : B → Verdict (A × Db))
      → P db
      → ((b : B) → m ≡ given b → P (after db (f b)))
      → P (after db (m >>= f))
  after_bind (given b) f same next = next b refl
  after_bind (failed status code) f same next = same
  after_bind broken f same next = same

module _ (texts : Texts) (config : Config) where
  unfoldable pub step : (now : ℕ) → Call → Db → Db
  step now (reserves q) db = after db (reserve_for_message config now q db)
  step now (acknowledges q) db = after db (acknowledge_scylla_write now q db)
  step now (commits q) db = after db (commit_reservation now q db)
  step now (releases q) db = (release_reservation q db).1
  step now (recovers q row) db = after db (commit_recovered_reservation texts now q row db)
  step now (settles g) db = after db (mark_committed now g db)
  step now (restages g) db = after db (release_to_staged config.reservation_ttl_seconds now g db)
  step now (deletes a user conversation) db =
      after db (delete_staged_attachment now a user conversation db)
  step now (expires a) db = (expire_one now a db).1

  unfoldable pub run : List (ℕ × Call) → Db → Db
  run [] db = db
  run ((now, call) ∷ rest) db = run rest (step now call db)
