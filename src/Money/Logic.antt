-- ===== src/Money/Logic.antt =====
-- Rules for what programs of the page keep and for programs that return, one for each way in which a
-- program is composed.
use finance_next.Base.{Bool, true, false, ◌≡◌, refl, if◌then◌else◌}
use finance_next.Money.State.{
  Ended, gave, threw, Page, Program, ◌>>=◌, ◌>>◌, on_value, on_throw, return, set, try_catch,
  finally,
}

module _ {E N P : Type 0} where
  -- What holds before holds after, however the program ends.
  unfoldable pub Keeps : {A : Type 0} → (Page E N P → Type 0) → Program E N P A → Type 0
  Keeps I m = (p : Page E N P) → I p → I (m p).1

  -- The program ends with a value.
  unfoldable pub Returns : {A : Type 0} → Program E N P A → Type 0
  Returns {A} m = (p : Page E N P) → (a : A) × ((m p).0 ≡ gave a)

  on_value-Keeps :
      {A B : Type 0} (I : Page E N P → Type 0) (r : Ended E A × Page E N P)
      (f : A → Program E N P B)
      → I r.1
      → ((a : A) → Keeps I (f a))
      → I (on_value r f).1
  unfolding Keeps
  on_value-Keeps I (gave a, q) f i k = k a q i
  on_value-Keeps I (threw e, q) f i k = i

  on_throw-Keeps :
      {A : Type 0} (I : Page E N P → Type 0) (r : Ended E A × Page E N P)
      (handler : E → Program E N P A)
      → I r.1
      → ((e : E) → Keeps I (handler e))
      → I (on_throw r handler).1
  unfolding Keeps
  on_throw-Keeps I (gave a, q) handler i k = i
  on_throw-Keeps I (threw e, q) handler i k = k e q i

  module _ (I : Page E N P → Type 0) where
    pub Keeps-bind :
        {A B : Type 0} (m : Program E N P A) (f : A → Program E N P B)
        → Keeps I m
        → ((a : A) → Keeps I (f a))
        → Keeps I (m >>= f)
    unfolding Keeps ◌>>=◌
    Keeps-bind m f h k p i = on_value-Keeps I (m p) f (h p i) k

    pub Keeps-return : {A : Type 0} (a : A) → Keeps I (return a)
    unfolding Keeps return
    Keeps-return a p i = i

    pub Keeps-set :
        (f : Page E N P → Page E N P) → ((p : Page E N P) → I p → I (f p)) → Keeps I (set f)
    unfolding Keeps set
    Keeps-set f h = h

    pub Keeps-then :
        {A B : Type 0} (m : Program E N P A) (k : Program E N P B)
        → Keeps I m
        → Keeps I k
        → Keeps I (m >> k)
    Keeps-then m k h j = Keeps-bind m (λ a. k) h λ a. j

    pub Keeps-try :
        {A : Type 0} (m : Program E N P A) (handler : E → Program E N P A)
        → Keeps I m
        → ((e : E) → Keeps I (handler e))
        → Keeps I (try_catch m handler)
    unfolding Keeps try_catch
    Keeps-try m handler h k p i = on_throw-Keeps I (m p) handler (h p i) k

    -- A part that reads the page when it starts.
    pub Keeps-use :
        {A : Type 0} (m : Program E N P A) → Keeps I m → (p : Page E N P) → I p → I (m p).1
    unfolding Keeps
    Keeps-use m h = h

    pub Keeps-if :
        {A : Type 0} (b : Bool) (m k : Program E N P A)
        → Keeps I m
        → Keeps I k
        → Keeps I (if b then m else k)
    unfolding Keeps
    Keeps-if true m k h j = h
    Keeps-if false m k h j = j

    -- `I` outside, `J` between the start and the end.
    pub Keeps-within :
        {A : Type 0} (J : Page E N P → Type 0) (start stop : Page E N P → Page E N P)
        (m : Program E N P A)
        → ((p : Page E N P) → I p → J (start p))
        → Keeps J m
        → ((p : Page E N P) → J p → I (stop p))
        → Keeps I (set start >> finally m stop)
    unfolding Keeps ◌>>=◌ set finally
    Keeps-within J start stop m h k l p i = l (m (start p)).1 (k (start p) (h p i))

  on_value-Returns :
      {A B : Type 0} (r : Ended E A × Page E N P) (f : A → Program E N P B)
      → (a : A) × (r.0 ≡ gave a)
      → ((a : A) → Returns (f a))
      → (b : B) × ((on_value r f).0 ≡ gave b)
  unfolding Returns
  on_value-Returns (gave a, q) f h k = k a q
  on_value-Returns (threw e, q) f (a, h) k = cc

  on_throw-Returns :
      {A : Type 0} (r : Ended E A × Page E N P) (handler : E → Program E N P A)
      → ((e : E) → Returns (handler e))
      → (a : A) × ((on_throw r handler).0 ≡ gave a)
  unfolding Returns
  on_throw-Returns (gave a, q) handler k = (a, refl)
  on_throw-Returns (threw e, q) handler k = k e q

  pub Returns-bind :
      {A B : Type 0} (m : Program E N P A) (f : A → Program E N P B)
      → Returns m
      → ((a : A) → Returns (f a))
      → Returns (m >>= f)
  unfolding Returns ◌>>=◌
  Returns-bind m f h k p = on_value-Returns (m p) f (h p) k

  pub Returns-set : (f : Page E N P → Page E N P) → Returns (set f)
  unfolding Returns set
  Returns-set f p = (tt, refl)

  pub Returns-try :
      {A : Type 0} (m : Program E N P A) (handler : E → Program E N P A)
      → ((e : E) → Returns (handler e))
      → Returns (try_catch m handler)
  unfolding Returns try_catch
  Returns-try m handler k p = on_throw-Returns (m p) handler k

  pub Returns-if :
      {A : Type 0} (b : Bool) (m k : Program E N P A)
      → Returns m
      → Returns k
      → Returns (if b then m else k)
  unfolding Returns
  Returns-if true m k h j = h
  Returns-if false m k h j = j

  pub Returns-within :
      {A : Type 0} (start stop : Page E N P → Page E N P) (m : Program E N P A)
      → Returns m
      → Returns (set start >> finally m stop)
  unfolding Returns ◌>>=◌ set finally
  Returns-within start stop m h p = h (start p)

module _ (E N P : Type 0) where
  pub Returns-return : {A : Type 0} (a : A) → Returns (return {E = E} {N = N} {P = P} a)
  unfolding Returns return
  Returns-return a p = (a, refl)
