-- ===== src/Packet/References.antt =====
-- Reference counting of packets (src/packet.c, and the queues that share a packet).
use enet_revamp.Base.{
  ℕ, suc, ◌+◌, ◌-◌, ◌<◌, ◌≡◌, ◌≢◌, refl, inl, inr, ◌==◌, Bool-cases, if◌then◌else◌, Option, none,
  some, List, [], ◌∷◌, arith, ◌∙◌,
}
use enet_revamp.State.{Packet, Memory}
use enet_revamp.Packet.{destroy, release, release_option, release_all}

-- How many of the commands' packet pointers point at `a`.
abbrev pub references : ℕ → List (Option ℕ) → ℕ
references a [] = 0
references a (none ∷ rest) = references a rest
references a (some b ∷ rest) = (if a == b then 1 else 0) + references a rest

-- A released packet that others still hold loses one reference and nothing else.
pub release-shared :
    (a n : ℕ) (m : Memory) (p : Packet)
    → m.packets a ≡ some p
    → p.reference_count ≡ suc (suc n)
    → suc (suc n) < 18446744073709551616
    → (release a m).packets a ≡ some (record p { reference_count = suc n })
unfolding release
release-shared a n m p e c b = ground arith

pub release-last :
    (a : ℕ) (m : Memory) (p : Packet)
    → m.packets a ≡ some p
    → p.reference_count ≡ 1
    → (release a m).packets a ≡ none
unfolding release destroy
release-last a m p e c = ground arith

pub release-other : (a b : ℕ) (m : Memory) → a ≢ b → (release b m).packets a ≡ m.packets a
unfolding release destroy
release-other a b m h = ground arith

release-kept :
    (a : ℕ) (m : Memory) (p : Packet)
    → m.packets a ≡ some p
    → 1 < p.reference_count
    → p.reference_count < 18446744073709551616
    → (release a m).packets a ≡ some (record p { reference_count = p.reference_count - 1 })
unfolding release
release-kept a m p e c b = ground arith

release_all-untouched :
    (a : ℕ) (refs : List (Option ℕ)) (m : Memory)
    → references a refs ≡ 0
    → (release_all refs m).packets a ≡ m.packets a
unfolding release_all release_option
release_all-untouched a [] m h = refl
release_all-untouched a (none ∷ rest) m h = release_all-untouched a rest m h
release_all-untouched a (some b ∷ rest) m h =
    release_all-untouched a rest (release b m) (ground arith) ∙ release-other a b m (ground arith)

-- A packet with more references than the commands of a queue hold survives the queue's release,
-- with its reference count less theirs.
pub release_all-kept :
    (a : ℕ) (refs : List (Option ℕ)) (m : Memory) (p : Packet)
    → m.packets a ≡ some p
    → references a refs < p.reference_count
    → p.reference_count < 18446744073709551616
    → (release_all refs m).packets a
      ≡ some (record p { reference_count = p.reference_count - references a refs })
unfolding release_all release_option
release_all-kept a [] m p e c b = ground arith
release_all-kept a (none ∷ rest) m p e c b = release_all-kept a rest m p e c b
release_all-kept a (some k ∷ rest) m p e c b = elim (Bool-cases (a == k)) [
  | inl hit ↦
      let same : a ≡ k = ground arith in
      let kept = release-kept a m p e (ground arith) b in
      let rec = release_all-kept a rest (release a m) _ kept (ground arith) (ground arith) in
      rw (← same) (ground (arith, rec))
  | inr miss ↦
      let rec =
        release_all-kept a rest (release k m) p (release-other a k m (ground arith) ∙ e)
          (ground arith) b in
      ground (arith, rec)
]

-- A packet whose references are all held by the commands of a queue is destroyed when the queue
-- is released.
pub release_all-last :
    (a : ℕ) (refs : List (Option ℕ)) (m : Memory) (p : Packet)
    → m.packets a ≡ some p
    → references a refs ≡ p.reference_count
    → 0 < p.reference_count
    → p.reference_count < 18446744073709551616
    → (release_all refs m).packets a ≡ none
unfolding release_all release_option
release_all-last a [] m p e c z b = absurd (omega arith)
release_all-last a (none ∷ rest) m p e c z b = release_all-last a rest m p e c z b
release_all-last a (some k ∷ rest) m p e c z b = elim (Bool-cases (a == k)) [
  | inl hit ↦
      let same : a ≡ k = ground arith in
      rw (← same) (elim (Bool-cases (p.reference_count == 1)) [
        | inl one ↦
            release_all-untouched a rest (release a m) (ground arith)
            ∙ release-last a m p e (ground arith)
        | inr more ↦
            release_all-last a rest (release a m) _ (release-kept a m p e (ground arith) b)
              (ground arith) (ground arith) (ground arith)
      ])
  | inr miss ↦
      release_all-last a rest (release k m) p (release-other a k m (ground arith) ∙ e)
        (ground arith) z b
]
