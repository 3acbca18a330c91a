-- ===== src/Delegation/Published.antt =====
-- What a publication leaves in the directory.
use idol_id_agents.Prelude.{
  Text, true, false, ◌≡◌, ◌≢◌, refl, sym, ap, ◌∙◌, not, ◌==◌, eq_refl, eq_iff, Option, Fields, Json,
  Result, ok, err, ok-injective, refuse_if, ◌>>◌, >>-ok, Bool-cases, inl, inr,
}
use idol_id_agents.Model.{WorkOrder}
use idol_id_agents.Delegation.{
  Outside, CoordinationRefusal, concurrent, occupied, bytes_differ, fact_of,
}
use idol_id_agents.Delegation.Queue.{
  Slot, missing, irregular_file, regular, Queue, put_slot, queue_path, queue_content, same_content,
  link, place, decoded, names_hash, publish_order, publish_decoded, publish,
}

pub put_slot-same : (name : Text) (s : Slot) (queue : Queue) → put_slot name s queue name ≡ s
put_slot-same name s queue = rw (eq_refl name) refl

same_content-ok :
    (e : CoordinationRefusal) (content : Text) (s : Slot)
    → same_content e content s ≡ ok tt
    → s ≡ regular content
unfolding same_content
same_content-ok e content missing h = cc
same_content-ok e content irregular_file h = cc
same_content-ok e content (regular found) h = elim (Bool-cases (found == content)) [
  | inl same ↦ ap regular ((eq_iff found content).0 same)
  | inr differs ↦ let refused : refuse_if (not (found == content)) e ≡ err e = rw differs refl in cc
]

same_content-same :
    (e : CoordinationRefusal) (content : Text) → same_content e content (regular content) ≡ ok tt
unfolding same_content
same_content-same e content = rw (eq_refl content) refl

link-places :
    (target content : Text) (race : Slot) (queue : Queue)
    → (link target content race queue).0 ≡ ok tt
    → (link target content race queue).1 target ≡ regular content
unfolding link
link-places target content missing queue h = put_slot-same target (regular content) queue
link-places target content (regular found) queue h =
    put_slot-same target (regular found) queue
    ∙ same_content-ok concurrent content (regular found) h
link-places target content irregular_file queue h = cc

-- What is placed stands under its name.
place-places :
    (target content : Text) (race s : Slot) (queue : Queue)
    → queue target ≡ s
    → (place target content race s queue).0 ≡ ok tt
    → (place target content race s queue).1 target ≡ regular content
unfolding place
place-places target content race missing queue e h = link-places target content race queue h
place-places target content race (regular found) queue e h =
    e ∙ same_content-ok occupied content (regular found) h
place-places target content race irregular_file queue e h = cc

put_slot-keeps :
    (target n : Text) (s : Slot) (queue : Queue)
    → queue target ≡ missing
    → queue n ≢ missing
    → put_slot target s queue n ≡ queue n
put_slot-keeps target n s queue free taken = elim (Bool-cases (n == target)) [
  | inl same ↦ absurd (taken (ap queue ((eq_iff n target).0 same) ∙ free))
  | inr differs ↦ rw differs refl
]

link-keeps :
    (target content : Text) (race : Slot) (queue : Queue) (n : Text)
    → queue target ≡ missing
    → queue n ≢ missing
    → (link target content race queue).1 n ≡ queue n
unfolding link
link-keeps target content missing queue n = put_slot-keeps target n (regular content) queue
link-keeps target content (regular found) queue n = put_slot-keeps target n (regular found) queue
link-keeps target content irregular_file queue n = put_slot-keeps target n irregular_file queue

place-keeps :
    (target content : Text) (race s : Slot) (queue : Queue) (n : Text)
    → queue target ≡ s
    → queue n ≢ missing
    → (place target content race s queue).1 n ≡ queue n
unfolding place
place-keeps target content race missing queue n e taken =
    link-keeps target content race queue n e taken
place-keeps target content race (regular found) queue n e taken = refl
place-keeps target content race irregular_file queue n e taken = refl

module _ (w : Outside) where
  publish_order-keeps :
      (fact : Option Fields) (race : Slot) (o : WorkOrder) (queue : Queue) (n : Text)
      → queue n ≢ missing
      → (publish_order w fact race o queue).1 n ≡ queue n
  unfolding publish_order
  publish_order-keeps fact race o queue n taken =
      elim (Bool-cases (not (names_hash fact (w.sha256 (queue_content w o))))) [
        | inl e ↦ rw e refl
        | inr e ↦ rw e (
            place-keeps (queue_path w o) (queue_content w o) race (queue (queue_path w o)) queue n
              refl taken)
      ]

  publish_decoded-keeps :
      (fact : Option Fields) (race : Slot) (queue : Queue)
      (r : Result CoordinationRefusal WorkOrder) (n : Text)
      → queue n ≢ missing
      → (publish_decoded w fact race queue r).1 n ≡ queue n
  unfolding publish_decoded
  publish_decoded-keeps fact race queue (err e) n taken = refl
  publish_decoded-keeps fact race queue (ok o) n taken =
      publish_order-keeps fact race o queue n taken

  -- A file of the directory stays as it is, whatever a publication does.
  pub publish-keeps :
      (fact : Json) (race : Slot) (queue : Queue) (n : Text)
      → queue n ≢ missing
      → (publish w fact race queue).1 n ≡ queue n
  unfolding publish
  publish-keeps fact race queue n =
      publish_decoded-keeps (fact_of fact) race queue (decoded w (fact_of fact)) n

  -- What a publication that succeeds has read, and where it has left it.
  pub record IsPublished (fact : Option Fields) (t : Text) (left : Queue) : Type 0 where
    pub order : WorkOrder
    pub reads : decoded w fact ≡ ok order
    pub hashes : names_hash fact (w.sha256 (queue_content w order)) ≡ true
    pub target : queue_path w order ≡ t
    pub stands : left (queue_path w order) ≡ regular (queue_content w order)

  -- The steps of the publication of an order whose hash is the journaled one.
  abbrev placed : Slot → WorkOrder → Queue → Result CoordinationRefusal (Unit {0}) × Queue
  placed race o queue =
      place (queue_path w o) (queue_content w o) race (queue (queue_path w o)) queue

  publish_order-named :
      (fact : Option Fields) (race : Slot) (o : WorkOrder) (queue : Queue)
      → names_hash fact (w.sha256 (queue_content w o)) ≡ true
      → publish_order w fact race o queue
        ≡ (((placed race o queue).0 >> ok (queue_path w o)), (placed race o queue).1)
  unfolding publish_order
  publish_order-named fact race o queue e = rw e refl

  pub publish_order-unnamed :
      (fact : Option Fields) (race : Slot) (o : WorkOrder) (queue : Queue)
      → names_hash fact (w.sha256 (queue_content w o)) ≡ false
      → publish_order w fact race o queue ≡ (err bytes_differ, queue)
  unfolding publish_order
  publish_order-unnamed fact race o queue e = rw e refl

  publish_order-IsPublished :
      (fact : Option Fields) (race : Slot) (o : WorkOrder) (queue : Queue) {t : Text}
      → decoded w fact ≡ ok o
      → (publish_order w fact race o queue).0 ≡ ok t
      → IsPublished fact t (publish_order w fact race o queue).1
  publish_order-IsPublished fact race o queue {t} reads h =
      elim (Bool-cases (names_hash fact (w.sha256 (queue_content w o)))) [
        | inl e ↦
            let eq = publish_order-named fact race o queue e in
            let (passed, same) =
              >>-ok (placed race o queue).0 (ok (queue_path w o)) (sym (ap (λ p. p.0) eq) ∙ h) in
            record {
              order = o;
              reads = reads;
              hashes = e;
              target = ok-injective same;
              stands =
                  ap (λ p. p.1 (queue_path w o)) eq
                  ∙ place-places (queue_path w o) (queue_content w o) race (queue (queue_path w o))
                      queue refl passed;
            }
        | inr e ↦
            let refused : ◌≡◌ {A = Result CoordinationRefusal Text} (err bytes_differ) (ok t) =
              sym (ap (λ p. p.0) (publish_order-unnamed fact race o queue e)) ∙ h in
            cc
      ]

  publish_decoded-IsPublished :
      (fact : Option Fields) (race : Slot) (queue : Queue)
      (r : Result CoordinationRefusal WorkOrder) {t : Text}
      → decoded w fact ≡ r
      → (publish_decoded w fact race queue r).0 ≡ ok t
      → IsPublished fact t (publish_decoded w fact race queue r).1
  unfolding publish_decoded
  publish_decoded-IsPublished fact race queue (err e) reads h = cc
  publish_decoded-IsPublished fact race queue (ok o) reads h =
      publish_order-IsPublished fact race o queue reads h

  pub publish-IsPublished :
      (fact : Json) (race : Slot) (queue : Queue) {t : Text}
      → (publish w fact race queue).0 ≡ ok t
      → IsPublished (fact_of fact) t (publish w fact race queue).1
  unfolding publish
  publish-IsPublished fact race queue h =
      publish_decoded-IsPublished (fact_of fact) race queue (decoded w (fact_of fact)) refl h

  -- What is published is published again without a change.
  pub publish-IsPublished_again :
      (fact : Json) (race : Slot) (left : Queue) {t : Text}
      → IsPublished (fact_of fact) t left
      → publish w fact race left ≡ (ok t, left)
  unfolding publish publish_decoded publish_order place
  publish-IsPublished_again fact race left h =
      rw
        (
          h.reads,
          h.hashes,
          h.stands,
          same_content-same occupied (queue_content w h.order),
          h.target,
        )
        refl
