-- ===== src/Sync/Mirror/Store.antt =====
-- `store` of delfin/task_manager/tasks/resources.py: what its three calls leave in the database.
use delfin.Prelude.{
  ℕ, ◌≡◌, refl, sym, ap, ap₂, ◌∙◌, true, false, List, [], ◌∷◌, ◌++◌, distinct, ◌==◌, ==_refl,
}
use mathlib.Core.List.{append-nil}
use delfin.Errors.{Result, ok}
use delfin.Database.{
  Row, Resource, Engine, Kind, table_number, Database, Action, ◌>>=◌, ◌>>◌, when, bulk_delete,
  bulk_update, bulk_create, ids, resources_delete, resources_update, resource_refs,
  resources_create,
}
use delfin.Sync.Classify.{Classified}
use delfin.Sync.Task.{DriverApi, not_empty, store}
use delfin.Sync.Frame.{bulk_task}

-- What an action does to the table `k` and to the rest of the database: it raises nothing, and
-- leaves every other table as it is.
pub record Writes (k : Kind) (m : Action (Unit {0})) (d : Database) (rows : List Row) (issued : ℕ)
    : Type 0 where
  pub done : (m d).0 ≡ ok tt
  pub written : (m d).1.table k ≡ rows
  pub others : (j : Kind) → (table_number j == table_number k) ≡ false → (m d).1.table j ≡ d.table j
  pub uuids : (m d).1.issued ≡ issued

pub >>=-ok :
    {A B : Type 0} (m : Action A) (f : A → Action B) (d : Database) (a : A)
    → (m d).0 ≡ ok a
    → (m >>= f) d ≡ f a (m d).1
>>=-ok m f d a e = rw (e, ◌>>=◌) refl

>>-Writes :
    (k : Kind) (m n : Action (Unit {0})) (d : Database) (rows rows' : List Row) (issued issued' : ℕ)
    → Writes k m d rows issued
    → Writes k n (m d).1 rows' issued'
    → Writes k (m >> n) d rows' issued'
>>-Writes k m n d rows rows' issued issued' first second =
    let step = >>=-ok m (λ _. n) d tt first.done in
    record {
      done = ap (λ p. p.0) step ∙ second.done;
      written = ap (λ p. p.1.table k) step ∙ second.written;
      others = λ j e. ap (λ p. p.1.table j) step ∙ second.others j e ∙ first.others j e;
      uuids = ap (λ p. p.1.issued) step ∙ second.uuids;
    }

when_delete-Writes :
    (k : Kind) (is : List ℕ) (d : Database)
    → Writes k (when (not_empty is) (bulk_delete k is)) d (resources_delete is (d.table k)) d.issued
unfolding resources_delete bulk_delete
when_delete-Writes k [] d = record {
  done = refl;
  written = refl;
  others = λ j e. refl;
  uuids = refl;
}
when_delete-Writes k (i ∷ is) d = record {
  done = refl;
  written = rw (==_refl (table_number k));
  others = λ j e. rw e;
  uuids = refl;
}

when_update-Writes :
    (k : Kind) (rs : List Resource) (d : Database)
    → Writes k (when (not_empty rs) (bulk_update k rs)) d (resources_update rs (d.table k)) d.issued
unfolding resources_update bulk_update
when_update-Writes k [] d = record {
  done = refl;
  written = refl;
  others = λ j e. refl;
  uuids = refl;
}
when_update-Writes k (r ∷ rs) d = record {
  done = refl;
  written = rw (==_refl (table_number k));
  others = λ j e. rw e;
  uuids = refl;
}

when_create-Writes :
    (sql : Engine) (k : Kind) (rs : List Resource) (d : Database)
    → distinct (ids (d.table k ++ (resource_refs sql d.issued rs).0)) ≡ true
    → Writes k
        (when (not_empty rs) (bulk_create sql k rs))
        d
        (d.table k ++ (resource_refs sql d.issued rs).0)
        (resource_refs sql d.issued rs).1
unfolding bulk_create resources_create resource_refs
when_create-Writes sql k [] d clash = record {
  done = refl;
  written = sym (append-nil (d.table k));
  others = λ j e. refl;
  uuids = refl;
}
when_create-Writes sql k (r ∷ rs) d clash = record {
  done = rw clash refl;
  written = rw (clash, ==_refl (table_number k)) refl;
  others = λ j e. rw (clash, e) refl;
  uuids = rw clash refl;
}

pub store-Writes :
    (sql : Engine) (list : DriverApi → ℕ → Result (List Resource)) (k : Kind) (c : Classified)
    (d : Database) (kept : List Row)
    → resources_update c.update_list (resources_delete c.delete_id_list (d.table k)) ≡ kept
    → distinct (ids (kept ++ (resource_refs sql d.issued c.add_list).0)) ≡ true
    → Writes k
        (store sql (bulk_task list k) c)
        d
        (kept ++ (resource_refs sql d.issued c.add_list).0)
        (resource_refs sql d.issued c.add_list).1
unfolding store
store-Writes sql list k c d kept e clash =
    let m = when (not_empty c.delete_id_list) (bulk_delete k c.delete_id_list) in
    let n = when (not_empty c.update_list) (bulk_update k c.update_list) in
    let o = when (not_empty c.add_list) (bulk_create sql k c.add_list) in
    let d₁ = (m d).1 in
    let d₂ = (n d₁).1 in
    let deleted = when_delete-Writes k c.delete_id_list d in
    let updated = when_update-Writes k c.update_list d₁ in
    let now : d₂.table k ≡ kept =
      updated.written ∙ ap (resources_update c.update_list) deleted.written ∙ e in
    let count : d₂.issued ≡ d.issued = updated.uuids ∙ deleted.uuids in
    let refs = λ (i : ℕ). resource_refs sql i c.add_list in
    let created =
      when_create-Writes sql k c.add_list d₂
        (ap₂ (λ rows i. distinct (ids (rows ++ (refs i).0))) now count ∙ clash) in
    >>-Writes k m (n >> o) d _ _ _ _ deleted (
      >>-Writes k n o d₁ _ _ _ _ updated (record {
        done = created.done;
        written = created.written ∙ ap₂ (λ rows i. rows ++ (refs i).0) now count;
        others = created.others;
        uuids = created.uuids ∙ ap (λ i. (refs i).1) count;
      }))
