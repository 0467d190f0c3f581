-- ===== src/Manager/Encoders/Accounting.antt =====
-- What acquiring and releasing a shared encoder set does to the counts.
use obs_dsk_multistream.Base.{
  ◌+◌, ◌-◌, ◌<◌, String, ◌≡◌, ◌≢◌, refl, none, some, is_empty, arith, eq_iff, ltb, Option-cases,
  inl, inr, Bool-cases, ltb→lt, ne_of_test,
}
use text.Mathlib.TextLemmas.{append-eq-nil_iff}
use obs_dsk_multistream.Target.{OutputTarget, EncoderGroup, dsk_horizontal, dsk_vertical}
use obs_dsk_multistream.Target.Names.{encoder_group_to_string}
use obs_dsk_multistream.Manager.State.{SharedEncoderSet, EncoderProfile, Manager, Core, Env}
use obs_dsk_multistream.Manager.Encoders.{
  lookup_set, release_found, release_shared_encoders, one_more, one_less, shared_encoder_key,
  acquire_shared_encoders, create_set, Acquired, acquired, refused,
}
use obs_dsk_multistream.Manager.Encoders.Counting.{
  hit, refs_of, IsTable, refs_of-none, refs_of-some, refs_of-more, refs_of-less, refs_of-remove,
  IsDistinct-modify, IsTable-remove, IsUsed-more, IsUsed-less,
}

-- The counts after giving one set back: one less at its key.
pub record Returned (key : String) (c c' : Core) : Type 0 where
  pub sessions_kept : c'.sessions ≡ c.sessions
  pub serial_kept : c'.next_session_serial ≡ c.next_session_serial
  pub table : IsTable c'.shared_encoders
  pub counts :
      (k : String) → k ≢ "" → refs_of k c'.shared_encoders + hit key k ≡ refs_of k c.shared_encoders

release_found-Returned :
    (key : String) (set : SharedEncoderSet) (m : Manager)
    → lookup_set key m.shared_encoders ≡ some set
    → IsTable m.shared_encoders
    → Returned key m.core (release_found key set m).core
unfolding release_found
release_found-Returned key set m h t = elim (Bool-cases (ltb 0 (set.refs - 1))) [
  | inl more ↦ rw more (record {
    sessions_kept = refl;
    serial_kept = refl;
    table = record {
      used = IsUsed-less key m.shared_encoders set h (ltb→lt 0 (set.refs - 1) more) t.used;
      distinct = IsDistinct-modify key one_less m.shared_encoders (λ s. refl) t.distinct;
    };
    counts = λ k n. refs_of-less key k m.shared_encoders set h t.used;
  })
  | inr last ↦ rw last (record {
    sessions_kept = refl;
    serial_kept = refl;
    table = IsTable-remove key m.shared_encoders t;
    counts = λ k n.
        refs_of-remove key k m.shared_encoders set h
          (ground (arith, refs_of-some key m.shared_encoders set h t.used)) t.distinct;
  })
]

-- Releasing a key that is held, or the empty key of a session with its own encoders, takes one
-- reference from that key's encoders and none from any other, and leaves no set without a user.
pub release-Returned :
    (key : String) (m : Manager)
    → IsTable m.shared_encoders
    → (key ≢ "" → 0 < refs_of key m.shared_encoders)
    → Returned key m.core (release_shared_encoders key m).core
unfolding release_shared_encoders
release-Returned key m t held = elim (Bool-cases (is_empty key)) [
  | inl none_held ↦ rw none_held (record {
    sessions_kept = refl;
    serial_kept = refl;
    table = t;
    counts = λ k n. ground (arith, n, eq_iff key "", eq_iff key k);
  })
  | inr keyed ↦ rw keyed (elim (Option-cases (lookup_set key m.shared_encoders)) [
    | inl missing ↦ absurd (ground (arith, held, eq_iff key "", refs_of-none key m.shared_encoders))
    | inr (set, found) ↦
        rw (found, release_shared_encoders) (release_found-Returned key set m found t)
  ])
]

-- The counts after taking one set: one more at its key.
pub record Taken (key : String) (c c' : Core) : Type 0 where
  pub sessions_kept : c'.sessions ≡ c.sessions
  pub serial_kept : c'.next_session_serial ≡ c.next_session_serial
  pub table : IsTable c'.shared_encoders
  pub counts : (k : String) → refs_of k c'.shared_encoders ≡ refs_of k c.shared_encoders + hit key k

-- An answer with a set holds one reference of that set's key; a refusal holds none.
abbrev pub Accounts : Core → Manager × Acquired → Type 0
Accounts c (m', acquired set) = Taken set.key c m'.core × (set.key ≢ "")
Accounts c (m', refused e) = m'.core ≡ c

group_named : (g : EncoderGroup) → encoder_group_to_string g ≢ ""
unfolding encoder_group_to_string
group_named dsk_horizontal = ne_of_test "dsk-horizontal" "" refl
group_named dsk_vertical = ne_of_test "dsk-vertical" "" refl

pub shared_encoder_key_given :
    (env : Env) (target : OutputTarget) (profile : EncoderProfile)
    → shared_encoder_key env target profile ≢ ""
unfolding shared_encoder_key
shared_encoder_key_given env target profile h = group_named profile.group (append-eq-nil_iff.0 h).0

module _ (env : Env) (target : OutputTarget) (profile : EncoderProfile) (m : Manager) where
  create-Accounts :
      (key : String)
      → key ≢ ""
      → lookup_set key m.shared_encoders ≡ none
      → IsTable m.shared_encoders
      → Accounts m.core (create_set env target profile key m)
  unfolding create_set refs_of
  create-Accounts key n missing t = elim (Option-cases (env.create_video_encoder target profile)) [
    | inl no_video ↦ rw (no_video, create_set) (refl)
    | inr (v, video) ↦ elim (Option-cases (env.create_audio_encoder target profile)) [
      | inl no_audio ↦ rw (video, create_set) (rw (no_audio, create_set) (refl))
      | inr (a, audio) ↦
          rw (video, create_set)
            (rw (audio, create_set)
              (
                record {
                  sessions_kept = refl;
                  serial_kept = refl;
                  table = record { used = ground arith; distinct = ground arith };
                  counts =
                      λ k. ground (arith, refs_of-none key m.shared_encoders missing, eq_iff key k);
                },
                n,
              ))
    ]
  ]

  -- Acquiring shared encoders adds one reference to the set that it answers with and to no other;
  -- when the encoders cannot be created, nothing changes in the sessions and the encoder table.
  pub acquire-Accounts :
      IsTable m.shared_encoders → Accounts m.core (acquire_shared_encoders env target profile m)
  unfolding acquire_shared_encoders
  acquire-Accounts t =
      let key = shared_encoder_key env target profile in
      elim (Option-cases (lookup_set key m.shared_encoders)) [
        | inl missing ↦
            rw (missing, acquire_shared_encoders)
              (create-Accounts key (shared_encoder_key_given env target profile) missing t)
        | inr (set, found) ↦
            rw (found, acquire_shared_encoders)
              (rw (refs_of-some key m.shared_encoders set found t.used).1 (
                record {
                  sessions_kept = refl;
                  serial_kept = refl;
                  table = record {
                    used = IsUsed-more key m.shared_encoders t.used;
                    distinct =
                        IsDistinct-modify key one_more m.shared_encoders (λ s. refl) t.distinct;
                  };
                  counts = λ k. refs_of-more key k m.shared_encoders set found;
                },
                shared_encoder_key_given env target profile,
              ))
      ]
