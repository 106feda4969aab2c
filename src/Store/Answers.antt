-- ===== src/Store/Answers.antt =====
-- Runs in which no statement fails for the driver's reason: their result, errors included.
use ping.Prelude.{◌≡◌, refl, ap, ◌∙◌}
use ping.Db.{Db}
use ping.Db.Result.{Result, ok, err, Error}
use ping.Store.{
  close, calm, run, rename, Conn, Op, tick, ◌>>=◌, exec, with_tx, of_result, continue_with,
  missing_as_not_found,
}
use ping.Store.Tx.{Clean}
use ping.Store.Returns.{Returns}

-- On any connection without faults, from these tables, the operation has this result.
abbrev pub Answers : {A : Type 0} → Op A → Db → Result A → Type 0
Answers m d r = (c : Conn) → c.db ≡ d → Clean c → (c' : Conn) × (m c ≡ (r, c')) × Clean c'

pub Returns-Answers :
    {A : Type 0} (m : Op A) (d : Db) (a : A) (d' : Db) → Returns m d a d' → Answers m d (ok a)
Returns-Answers m d a d' h c e k = let (c', p, _, clean) = h c e k in (c', p, clean)

pub exec-Answers :
    {A : Type 0} (f : Db → Result (A × Db)) (d : Db) (x : Error)
    → f d ≡ err x
    → Answers (exec f) d (err x)
unfolding exec
exec-Answers f d x q c e k = (tick c, rw (k c.step, e, q) refl, k)

pub >>=-Answers :
    {A B : Type 0} (m : Op A) (f : A → Op B) (d : Db) (a : A) (d₁ : Db) (r : Result B)
    → Returns m d a d₁
    → Answers (f a) d₁ r
    → Answers (m >>= f) d r
unfolding ◌>>=◌
>>=-Answers {A = A} m f d a d₁ r h k c e clean =
    let (c₁, p, q, clean₁) = h c e clean in
    let (c₂, p₂, clean₂) = k c₁ q clean₁ in
    (c₂, ap (λ (x : Result A × Conn). continue_with x.0 f x.1) p ∙ p₂, clean₂)

-- An operation stops at its first error.
pub >>=-refused :
    {A B : Type 0} (m : Op A) (f : A → Op B) (d : Db) (x : Error)
    → Answers m d (err x)
    → Answers (m >>= f) d (err x)
unfolding ◌>>=◌
>>=-refused {A = A} m f d x h c e clean =
    let (c₁, p, clean₁) = h c e clean in
    (c₁, ap (λ (r : Result A × Conn). continue_with r.0 f r.1) p, clean₁)

pub missing-Answers :
    {A : Type 0} (m : Op A) (d : Db) (r : Result A)
    → Answers m d r
    → Answers (missing_as_not_found m) d (rename r)
missing-Answers {A = A} m d r h c e clean =
    let (c₁, p, clean₁) = h c e clean in
    (c₁, ap (λ (x : Result A × Conn). (rename x.0, x.1)) p, clean₁)

pub of_result-Answers :
    {A : Type 0} (x : Result A) (d : Db) (e : Error) → x ≡ err e → Answers (of_result x) d (err e)
of_result-Answers x d e h c q clean = (c, rw h refl, clean)

commit_answer :
    {A : Type 0} (old : Db) (r : Result A) (c : Conn)
    → Clean c
    → (c' : Conn) × (close old r c ≡ (r, c')) × Clean c'
unfolding close
commit_answer old (ok a) c clean = (tick c, rw (clean c.step) refl, clean)
commit_answer old (err x) c clean = (record c { db = old }, refl, clean)

pub with_tx-Answers :
    {A : Type 0} (m : Op A) (d : Db) (r : Result A) → Answers m d r → Answers (with_tx m) d r
unfolding with_tx
with_tx-Answers m d r h c e clean =
    let (c₁, p, clean₁) = h (tick c) e clean in
    let (c₂, q, clean₂) = commit_answer c.db r c₁ clean₁ in (c₂, rw (clean c.step, p) q, clean₂)

pub run-Answers : {A : Type 0} (m : Op A) (d : Db) (r : Result A) → Answers m d r → (run m d).0 ≡ r
unfolding run
run-Answers {A = A} m d r h =
    let (c, p, _) = h (calm d) refl (λ n. refl) in ap (λ (x : Result A × Conn). x.0) p
