-- ===== src/Storage/Buckets.antt =====
-- The bucket of qorder_api/storage.py: when it becomes ready, and what an upload and a deletion leave.
use goi_mon.Prelude.{
  ℕ, Bool, true, false, Option, none, some, ◌≡◌, refl, ap, sym, ◌∙◌, subst, arith, Result, ok, err,
  ◌⊎◌, inl, inr, Bool-cases, if◌then◌else◌, ◌==◌, ◌>>◌, err_ne_ok,
}
use mathlib.Core.Logic.{◌↔◌}
use text.Mathlib.TextEquality.{eq_iff}
use goi_mon.Storage.{
  Remote, Fault, client_error, value_error, other_fault, http, named, Bucket, ensure_bucket,
  prepare_bucket, check_bucket, create_bucket, owned_code, call,
}

-- The bucket is there: it was found, or it was created now, by us or by another process of ours.
abbrev pub IsThere : Option Fault → Option Fault → Type 0
IsThere head create =
    (head ≡ none)
    ⊎ ((head ≡ some (client_error (http 404)))
        × ((create ≡ none) ⊎ (create ≡ some (client_error (named owned_code)))))

there :
    (n : ℕ) (create : Option Fault)
    → IsThere (some (client_error (http n))) create
    → (create ≡ none) ⊎ (create ≡ some (client_error (named owned_code)))
there n create (inl h) = absurd (cc)
there n create (inr t) = t.1

create_cases :
    (c : Option Fault) (b : Bucket)
    → ((create_bucket c b).0 ≡ ok tt) ↔ ((c ≡ none) ⊎ (c ≡ some (client_error (named owned_code))))
unfolding create_bucket
create_cases none b = ((λ h. inl refl), (λ h. refl))
create_cases (some (client_error (http n))) b = ((λ h. absurd (cc)), (λ h. ground arith))
create_cases (some (client_error (named c))) b =
    ((λ h. inr (ground (arith, eq_iff c owned_code))), (λ h. ground (arith, eq_iff c owned_code)))
create_cases (some value_error) b = ((λ h. absurd (cc)), (λ h. ground arith))
create_cases (some other_fault) b = ((λ h. absurd (cc)), (λ h. ground arith))

check_cases :
    (r : Remote) (head : Option Fault) (b : Bucket)
    → ((check_bucket r head b).0 ≡ ok tt) ↔ IsThere head r.create_bucket
unfolding check_bucket
check_cases r none b = ((λ h. inl refl), (λ h. refl))
check_cases r (some (client_error (http n))) b = elim (Bool-cases (n == 404)) [
  | inl e ↦ rw e (
    (λ h. inr (ground arith, (create_cases r.create_bucket b).0 h)),
    (λ t. (create_cases r.create_bucket b).1 (there n r.create_bucket t)),
  )
  | inr e ↦ rw e ((λ h. absurd (cc)), (λ t. ground arith))
]
check_cases r (some (client_error (named c))) b = ((λ h. absurd (cc)), (λ t. ground arith))
check_cases r (some value_error) b = ((λ h. absurd (cc)), (λ t. ground arith))
check_cases r (some other_fault) b = ((λ h. absurd (cc)), (λ t. ground arith))

create_bucket-objects : (c : Option Fault) (b : Bucket) → (create_bucket c b).1.objects ≡ b.objects
unfolding create_bucket
create_bucket-objects none b = refl
create_bucket-objects (some (client_error (http n))) b = refl
create_bucket-objects (some (client_error (named c))) b = ground arith
create_bucket-objects (some value_error) b = refl
create_bucket-objects (some other_fault) b = refl

check_bucket-objects :
    (r : Remote) (head : Option Fault) (b : Bucket) → (check_bucket r head b).1.objects ≡ b.objects
unfolding check_bucket
check_bucket-objects r none b = refl
check_bucket-objects r (some (client_error (http n))) b =
    ground (arith, create_bucket-objects r.create_bucket b)
check_bucket-objects r (some (client_error (named c))) b = refl
check_bucket-objects r (some value_error) b = refl
check_bucket-objects r (some other_fault) b = refl

call_cases :
    {S : Type 0} (o : Option Fault) (f : S → S) (s : S) → ((call o f s).0 ≡ ok tt) ↔ (o ≡ none)
call_cases none f s = ((λ h. refl), (λ h. refl))
call_cases (some e) f s = ((λ h. absurd (cc)), (λ h. absurd (cc)))

then_call :
    (q : Result Fault (Unit {0})) (b b₀ : Bucket) (o : Option Fault) (f : Bucket → Bucket)
    → (((λ (_ : Bucket). (q, b)) >> call o f) b₀).0 ≡ ok tt ↔ ((q ≡ ok tt) × (o ≡ none))
then_call (ok _) b b₀ o f = ((λ h. (refl, (call_cases o f b).0 h)), (λ t. (call_cases o f b).1 t.1))
then_call (err e) b b₀ o f = ((λ h. absurd (cc)), (λ t. absurd (err_ne_ok e tt t.0)))

then_call-objects :
    (q : Result Fault (Unit {0})) (b b₀ : Bucket) (o : Option Fault) (f : Bucket → Bucket)
    → ((c : Bucket) → (f c).objects ≡ c.objects)
    → (((λ (_ : Bucket). (q, b)) >> call o f) b₀).1.objects ≡ b.objects
then_call-objects (ok _) b b₀ none f keeps = keeps b
then_call-objects (ok _) b b₀ (some e) f keeps = refl
then_call-objects (err e) b b₀ o f keeps = refl

then_call-ready :
    (q : Result Fault (Unit {0})) (b b₀ : Bucket) (o : Option Fault) (f : Bucket → Bucket)
    → (((λ (_ : Bucket). (q, b)) >> call o f) b₀).0 ≡ ok tt
    → (((λ (_ : Bucket). (q, b)) >> call o f) b₀).1 ≡ f b
then_call-ready (ok _) b b₀ none f h = refl
then_call-ready (ok _) b b₀ (some e) f h = absurd (cc)
then_call-ready (err e) b b₀ o f h = absurd (cc)

abbrev ready : Bucket → Bucket
ready b = record b { public_read = true; ensured = true }

-- The outcome of making the bucket ready.
abbrev pub IsEnsured : Remote → Remote → Bucket → Result Fault (Unit {0}) × Bucket → Type 0
IsEnsured r later b (q, b') =
    ((q ≡ ok tt) ↔ (IsThere r.head_bucket r.create_bucket × (r.put_bucket_policy ≡ none)))
    × (q ≡ ok tt → (b'.public_read ≡ true) × (ensure_bucket later b' ≡ (ok tt, b')))
    × (b'.objects ≡ b.objects)

pub prepare_bucket-IsEnsured :
    (r later : Remote) (b : Bucket) → IsEnsured r later b (prepare_bucket r b)
unfolding prepare_bucket
prepare_bucket-IsEnsured r later b =
    let q = check_bucket r r.head_bucket b in
    let cases = check_cases r r.head_bucket b in
    let last = then_call q.0 q.1 b r.put_bucket_policy ready in
    let end = then_call-ready q.0 q.1 b r.put_bucket_policy ready in
    (
      ((λ h. (cases.0 (last.0 h).0, (last.0 h).1)), (λ t. last.1 (cases.1 t.0, t.1))),
      (λ h.
          (ap (λ (c : Bucket). c.public_read) (end h), rw (end h) (unfold ensure_bucket in refl))),
      then_call-objects q.0 q.1 b r.put_bucket_policy ready (λ c. refl)
          ∙ check_bucket-objects r r.head_bucket b,
    )

fresh_bucket :
    (r : Remote) (b : Bucket) → b.ensured ≡ false → ensure_bucket r b ≡ prepare_bucket r b
unfolding ensure_bucket
fresh_bucket r b fresh = ap (λ (t : Bool). if t then (ok tt, b) else prepare_bucket r b) fresh

-- As long as the bucket is not known to be ready, `ensure_bucket` succeeds exactly if the bucket is
-- there and the service takes the policy. Then the bucket is public, and a further call, whatever
-- the service answers by then, succeeds and changes nothing. No object changes either way.
pub ensure_bucket-IsEnsured :
    (r later : Remote) (b : Bucket) → b.ensured ≡ false → IsEnsured r later b (ensure_bucket r b)
ensure_bucket-IsEnsured r later b fresh =
    subst (IsEnsured r later b) (sym (fresh_bucket r b fresh)) (prepare_bucket-IsEnsured r later b)
