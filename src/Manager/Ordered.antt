-- ===== src/Manager/Ordered.antt =====
-- manager.go: which instance stands for which country, and which replacement waits for which instance.
pub mod Served
use tor_country_manager.Shared.{
  ℕ, suc, ◌<◌, ◌≤◌, Bool, true, is_ref, none, some, ◌≡◌, ◌≢◌, refl, ap, sym, ◌∙◌, arith, if_either,
  Option-cases, inl, inr,
}
use tor_country_manager.Shared.Text.{Text, same, same_iff}
use tor_country_manager.Shared.Int.{ℤ}
use tor_country_manager.Shared.Assoc.{lookup, lookup-insert}
use tor_country_manager.Config.Defs.{Country}
use tor_country_manager.Manager.Defs.{Manager, update}
use tor_country_manager.Manager.Traffic.{release_instance}
use tor_country_manager.Manager.Watch.{is_current}
use tor_country_manager.Manager.Replace.{
  NodeChoice, is_replaceable, open_replacement, switch_to, new_replacement, take_over,
}
use tor_country_manager.Manager.Nodes.{place_country, new_instance}
use tor_country_manager.Manager.Limits.{begin_shutdown}
use tor_country_manager.Manager.Calm.{Calm}
use tor_country_manager.Manager.Steps.{Survives, SurvivesTraffic}

-- A country stands for an instance of its own. A replacement waits for one instance, of the same country;
-- it stands for no country and has no connections. Nor has a place that is free.
pub record Ordered (m : Manager) : Type 0 where
  pub stands :
      (k : Text) (p : ℕ)
      → lookup k m.instances ≡ some p
      → ((m.heap p).country.code ≡ k) × (p < m.next_instance)
  pub pends :
      (q r : ℕ)
      → (m.heap q).pending_replacement ≡ some r
      → (r < m.next_instance)
        × ((m.heap r).country.code ≡ (m.heap q).country.code)
        × ((m.heap r).active_connections ≡ 0)
  pub waits :
      (k : Text) (q r : ℕ) → (m.heap q).pending_replacement ≡ some r → lookup k m.instances ≢ some r
  pub unique :
      (p q r : ℕ)
      → (m.heap p).pending_replacement ≡ some r
      → (m.heap q).pending_replacement ≡ some r
      → p ≡ q
  pub unused : (q : ℕ) → m.next_instance ≤ q → (m.heap q).active_connections ≡ 0

pub Calm-Ordered : {m n : Manager} → Calm m n → Ordered m → Ordered n
Calm-Ordered {m} {n} c o = record {
  stands = λ k p h.
      let (a, b) = o.stands k p (rw c.same_instances at h) in
      ((c.at p).same_code ∙ a, rw c.same_next b);
  pends = λ q r h.
      let (a, b, d) = o.pends q r ((c.at q).replacement_kept r h) in
      (
        rw c.same_next a,
        (c.at r).same_code ∙ b ∙ sym (c.at q).same_code,
        (c.at r).same_connections ∙ d,
      );
  waits = λ k q r h. rw c.same_instances (o.waits k q r ((c.at q).replacement_kept r h));
  unique =
      λ p q r h h'. o.unique p q r ((c.at p).replacement_kept r h) ((c.at q).replacement_kept r h');
  unused = λ q h. (c.at q).same_connections ∙ o.unused q (rw c.same_next at h);
}

pub place_country-Ordered :
    (m : Manager) (c : Country) (port control : ℤ)
    → Ordered m
    → Ordered (place_country m c port control)
unfolding place_country new_instance
place_country-Ordered m c port control o = record {
  stands = λ k p h.
      ground (
        arith,
        lookup-insert c.code k m.next_instance m.instances,
        same_iff c.code k,
        o.stands k p,
      );
  pends = λ q r h. ground (arith, o.pends q r);
  waits = λ k q r h e'.
      ground
        (arith, lookup-insert c.code k m.next_instance m.instances, o.waits k q r, o.pends q r);
  unique = λ p q r h h'. ground (arith, o.unique p q r);
  unused = λ q h. ground (arith, o.unused q);
}

open_replacement-Ordered :
    (m : Manager) (q : ℕ) (node : NodeChoice) (port control : ℤ)
    → is_replaceable m q ≡ true
    → Ordered m
    → Ordered (open_replacement m q node port control)
unfolding open_replacement switch_to new_replacement is_replaceable is_current
open_replacement-Ordered m q node port control h o = record {
  stands = λ k p e. ground (arith, o.stands k p, o.stands (m.heap q).country.code q);
  pends = λ p r e. ground (arith, o.pends p r, o.stands (m.heap q).country.code q);
  waits =
      λ k p r e e'. ground (arith, o.waits k p r, o.stands k r, o.stands (m.heap q).country.code q);
  unique = λ p p' r e e'. ground (arith, o.unique p p' r, o.pends p r, o.pends p' r);
  unused = λ p e. ground (arith, o.unused p, o.stands (m.heap q).country.code q);
}

take_over-Ordered :
    (m : Manager) (q r : ℕ) (activate : Bool)
    → is_ref (m.heap q).pending_replacement r ≡ true
    → Ordered m
    → Ordered (take_over m q r activate)
unfolding take_over
take_over-Ordered m q r activate h o = record {
  stands = λ k p e. ground (
    arith,
    lookup-insert (m.heap q).country.code k r m.instances,
    same_iff (m.heap q).country.code k,
    o.stands k p,
    o.pends q r,
  );
  pends = λ p s e. ground (arith, o.pends p s, o.pends q r);
  waits = λ k p s e e'.
      ground (
        arith,
        lookup-insert (m.heap q).country.code k r m.instances,
        o.waits k p s,
        o.unique p q r,
      );
  unique = λ p p' s e e'. ground (arith, o.unique p p' s);
  unused = λ p e. ground (arith, o.unused p, o.pends q r);
}

pub Ordered-Survives : Survives Ordered
unfolding begin_shutdown
Ordered-Survives = record {
  calm = Calm-Ordered;
  placed = λ m c port control _. place_country-Ordered m c port control;
  opened = λ m q node port control h _. open_replacement-Ordered m q node port control h;
  handed = λ m q r activate _. take_over-Ordered m q r activate;
  closed = λ m o. record {
    stands = o.stands;
    pends = o.pends;
    waits = o.waits;
    unique = o.unique;
    unused = o.unused;
  };
}

pub Ordered-SurvivesTraffic : SurvivesTraffic Ordered
unfolding release_instance
Ordered-SurvivesTraffic = record {
  served = λ m k p h o. record {
    stands = λ j q e. ground (arith, o.stands j q);
    pends = λ q r e. ground (arith, o.pends q r, o.waits k q r);
    waits = λ j q r e e'. ground (arith, o.waits j q r);
    unique = λ q q' r e e'. ground (arith, o.unique q q' r);
    unused = λ q e. ground (arith, o.unused q, o.stands k p);
  };
  released = λ m p o. record {
    stands = λ j q e. ground (arith, o.stands j q);
    pends = λ q r e. ground (arith, o.pends q r);
    waits = λ j q r e e'. ground (arith, o.waits j q r);
    unique = λ q q' r e e'. ground (arith, o.unique q q' r);
    unused = λ q e. ground (arith, o.unused q);
  };
}
