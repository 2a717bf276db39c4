-- ===== src/Name/Kebab.antt =====
-- What `toKebabCase` writes.
use mathlib.Core.List.{reverse, reverse-cons}
use gomake.Base.{
  ℕ, Str, Bool, true, false, [], ◌∷◌, ◌++◌, nat_eq, ◌&&◌, ◌≡◌, ◌≢◌, refl, arith, sym, ◌∙◌, All,
  append_assoc, append-nil,
}
use gomake.Name.{
  Kind, unk, lc, uc, num, kind_of, lowered, broken, dash, truncated, kebab_loop, to_kebab_case,
}

-- Whether a character of the second type may stand behind one of the first: no uppercase letter,
-- and no lowercase letter behind a digit.
ok_pair : Kind → Kind → Bool
ok_pair num lc = false
ok_pair p uc = false
ok_pair p t = true

calm : Kind → Str → Bool
calm p [] = true
calm p (v ∷ s) = ok_pair p (kind_of v) && calm (kind_of v) s

top_kind : Str → Kind
top_kind [] = unk
top_kind (v ∷ b) = kind_of v

calm_rev : Str → Bool
calm_rev [] = true
calm_rev (v ∷ b) = ok_pair (top_kind b) (kind_of v) && calm_rev b

low : Kind → Kind
low uc = lc
low lc = lc
low num = num
low unk = unk

rev_onto : Str → Str → Str
rev_onto [] s = s
rev_onto (v ∷ b) s = rev_onto b (v ∷ s)

kind_of-lowered : (v : ℕ) → kind_of (lowered (kind_of v) v) ≡ low (kind_of v)
unfolding kind_of low
kind_of-lowered v = ground arith

kind_of-dash : kind_of dash ≡ unk
unfolding kind_of
kind_of-dash = refl

reverse-rev_onto : (b s : Str) → reverse b ++ s ≡ rev_onto b s
unfolding rev_onto
reverse-rev_onto [] s = refl
reverse-rev_onto (v ∷ b) s =
    rw (reverse-cons v b, append_assoc (reverse b) (v ∷ []) s) (reverse-rev_onto b (v ∷ s))

-- In a calm text nothing is broken and nothing lowered.
broken-calm :
    (ppt pt t : Kind) (pv : ℕ) (b : Str)
    → pt ≢ uc
    → ok_pair pt t ≡ true
    → (broken ppt pt t pv b ≡ b) × (t ≢ uc)
unfolding ok_pair
broken-calm ppt uc t pv b n h = absurd (n refl)
broken-calm ppt num lc pv b n h = absurd (cc)
broken-calm ppt num uc pv b n h = absurd (cc)
broken-calm ppt num num pv b n h = (refl, λ e. cc)
broken-calm ppt num unk pv b n h = (refl, λ e. cc)
broken-calm ppt lc uc pv b n h = absurd (cc)
broken-calm ppt lc lc pv b n h = (refl, λ e. cc)
broken-calm ppt lc num pv b n h = (refl, λ e. cc)
broken-calm ppt lc unk pv b n h = (refl, λ e. cc)
broken-calm ppt unk uc pv b n h = absurd (cc)
broken-calm ppt unk lc pv b n h = (refl, λ e. cc)
broken-calm ppt unk num pv b n h = (refl, λ e. cc)
broken-calm ppt unk unk pv b n h = (refl, λ e. cc)

lowered-calm : (t : Kind) (v : ℕ) → t ≢ uc → lowered t v ≡ v
lowered-calm uc v n = absurd (n refl)
lowered-calm lc v n = refl
lowered-calm num v n = refl
lowered-calm unk v n = refl

kebab_loop-calm :
    (s b : Str) (ppt pt : Kind) (pv : ℕ)
    → pt ≢ uc
    → calm pt s ≡ true
    → kebab_loop s b ppt pt pv ≡ rev_onto b s
unfolding kebab_loop calm rev_onto
kebab_loop-calm [] b ppt pt pv n h = sym (append-nil (reverse b)) ∙ reverse-rev_onto b []
kebab_loop-calm (v ∷ s) b ppt pt pv n h =
    let (kept, m) = broken-calm ppt pt (kind_of v) pv b n (ground arith) in
    rw (kept, lowered-calm (kind_of v) v m)
      (kebab_loop-calm s (v ∷ b) pt (kind_of v) v m (ground arith))

-- The buffer stays calm.
ok_pair-unk : (t : Kind) → ok_pair unk (low t) ≡ true
unfolding ok_pair low
ok_pair-unk uc = refl
ok_pair-unk lc = refl
ok_pair-unk num = refl
ok_pair-unk unk = refl

abbrev IsSound : Str → Kind → ℕ → Type 0
IsSound b pt pv = (calm_rev b ≡ true) × (top_kind b ≡ low pt) × (kind_of pv ≡ low pt)

calm_rev-truncated : (b : Str) → calm_rev b ≡ true → calm_rev (truncated b) ≡ true
unfolding calm_rev
calm_rev-truncated [] h = refl
calm_rev-truncated (v ∷ b) h = ground arith

ok_pair-dash : (p : Kind) → ok_pair p unk ≡ true
unfolding ok_pair
ok_pair-dash uc = refl
ok_pair-dash lc = refl
ok_pair-dash num = refl
ok_pair-dash unk = refl

-- What the switch leaves: a calm buffer that the character may follow.
abbrev Ready : Str → Kind → Type 0
Ready b t = (calm_rev b ≡ true) × (ok_pair (top_kind b) (low t) ≡ true)

dashed : (b : Str) (t : Kind) → calm_rev b ≡ true → Ready (dash ∷ b) t
unfolding calm_rev top_kind
dashed b t h = rw (kind_of-dash, ok_pair-dash (top_kind b)) (h, ok_pair-unk t)

split_off :
    (pv : ℕ) (b : Str) → calm_rev b ≡ true → kind_of pv ≡ lc → Ready (pv ∷ dash ∷ truncated b) lc
unfolding calm_rev top_kind low ok_pair
split_off pv b h k =
    rw (k, kind_of-dash, ok_pair-dash (top_kind (truncated b))) (calm_rev-truncated b h, refl)

kept :
    (pt t : Kind) (b : Str)
    → calm_rev b ≡ true
    → top_kind b ≡ low pt
    → ok_pair (low pt) (low t) ≡ true
    → Ready b t
kept pt t b h k o = (h, rw k o)

broken-Ready :
    (ppt pt t : Kind) (pv : ℕ) (b : Str) → IsSound b pt pv → Ready (broken ppt pt t pv b) t
unfolding ok_pair low
broken-Ready ppt num lc pv b (h, k, p) = dashed b lc h
broken-Ready ppt num uc pv b (h, k, p) = dashed b uc h
broken-Ready ppt num num pv b (h, k, p) = kept num num b h k refl
broken-Ready ppt num unk pv b (h, k, p) = kept num unk b h k refl
broken-Ready ppt lc uc pv b (h, k, p) = dashed b uc h
broken-Ready ppt lc lc pv b (h, k, p) = kept lc lc b h k refl
broken-Ready ppt lc num pv b (h, k, p) = kept lc num b h k refl
broken-Ready ppt lc unk pv b (h, k, p) = kept lc unk b h k refl
broken-Ready uc uc lc pv b (h, k, p) = split_off pv b h p
broken-Ready lc uc lc pv b (h, k, p) = kept uc lc b h k refl
broken-Ready num uc lc pv b (h, k, p) = kept uc lc b h k refl
broken-Ready unk uc lc pv b (h, k, p) = kept uc lc b h k refl
broken-Ready ppt uc uc pv b (h, k, p) = kept uc uc b h k refl
broken-Ready ppt uc num pv b (h, k, p) = kept uc num b h k refl
broken-Ready ppt uc unk pv b (h, k, p) = kept uc unk b h k refl
broken-Ready ppt unk t pv b (h, k, p) = kept unk t b h k (ok_pair-unk t)

calm-rev_onto :
    (b s : Str) → calm_rev b ≡ true → calm (top_kind b) s ≡ true → calm unk (rev_onto b s) ≡ true
unfolding calm_rev calm top_kind rev_onto
calm-rev_onto [] s h k = k
calm-rev_onto (v ∷ b) s h k = calm-rev_onto b (v ∷ s) (ground arith) (ground arith)

calm-kebab_loop :
    (s b : Str) (ppt pt : Kind) (pv : ℕ)
    → IsSound b pt pv
    → calm unk (kebab_loop s b ppt pt pv) ≡ true
unfolding kebab_loop calm
calm-kebab_loop [] b ppt pt pv (h, k, p) =
    rw (sym (append-nil (reverse b)) ∙ reverse-rev_onto b []) (calm-rev_onto b [] h refl)
calm-kebab_loop (v ∷ s) b ppt pt pv sound =
    let t = kind_of v in
    let (h, o) = broken-Ready ppt pt t pv b sound in
    let lowers = kind_of-lowered v in
    calm-kebab_loop s (lowered t v ∷ broken ppt pt t pv b) pt t (lowered t v)
      (unfold calm_rev top_kind in rw (lowers, o) (h, refl, refl))

start-IsSound : IsSound [] unk 0
unfolding calm_rev top_kind low kind_of
start-IsSound = (refl, refl, refl)

-- Kebab case is a normal form: writing a name in it a second time changes nothing.
pub to_kebab_case_idempotent : (s : Str) → to_kebab_case (to_kebab_case s) ≡ to_kebab_case s
unfolding to_kebab_case rev_onto
to_kebab_case_idempotent s =
    kebab_loop-calm (kebab_loop s [] unk unk 0) [] unk unk 0 (λ e. cc)
      (calm-kebab_loop s [] unk unk 0 start-IsSound)

IsLower-calm : (p : Kind) (s : Str) → calm p s ≡ true → All (λ v. kind_of v ≢ uc) s
unfolding calm ok_pair
IsLower-calm p [] h = tt
IsLower-calm p (v ∷ s) h =
    (no_upper p (kind_of v) (ground arith), IsLower-calm (kind_of v) s (ground arith))
  where
    no_upper : (q t : Kind) → ok_pair q t ≡ true → t ≢ uc
    no_upper num uc o = absurd (cc)
    no_upper uc uc o = absurd (cc)
    no_upper lc uc o = absurd (cc)
    no_upper unk uc o = absurd (cc)
    no_upper q lc o = λ e. cc
    no_upper q num o = λ e. cc
    no_upper q unk o = λ e. cc

-- No letter of a name in kebab case is an uppercase one of ASCII.
pub to_kebab_case-All : (s : Str) → All (λ v. kind_of v ≢ uc) (to_kebab_case s)
unfolding to_kebab_case
to_kebab_case-All s =
    IsLower-calm unk (kebab_loop s [] unk unk 0) (calm-kebab_loop s [] unk unk 0 start-IsSound)
