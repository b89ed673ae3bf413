-- ===== src/Scull/Setup.antt =====
-- `scull_init` and `scull_exit` of HW4-xmerge/Labs/lab9/lab09-examples/scull.c.
use kernel_programming.Prelude.{
  List, [], ◌∷◌, Option, none, some, ◌⊎◌, ◌++◌, ◌≡◌, arith, ℕ, if◌then◌else◌, ◌==◌,
}
use kernel_programming.Prelude.Int.{ℤ, pos}
use kernel_programming.Scull.{ScullDev, Params, scull_trim}

-- What the kernel keeps of the module.
pub data Registered : Type 0 where
  region class_of_device device_node cdev_added : Registered

pub data Event : Type 0 where
  made undone : Registered → Event

-- What the calls of `scull_init` answer: an error, or none.
pub record InitAnswers : Type 0 where
  pub alloc_chrdev_region : Option ℤ
  pub class_create : Option ℤ
  pub device_create : Option ℤ
  pub cdev_add : Option ℤ

unfoldable pub scull_init : InitAnswers → ℤ × List Event
scull_init answers = elim answers.alloc_chrdev_region [
  | some e ↦ (e, [])
  | none ↦ elim answers.class_create [
    | some e ↦ (e, made region ∷ undone region ∷ [])
    | none ↦ elim answers.device_create [
      | some e ↦
          (e, made region ∷ made class_of_device ∷ undone class_of_device ∷ undone region ∷ [])
      | none ↦ elim answers.cdev_add [
        | some e ↦ (
          e,
          made region
              ∷ made class_of_device
              ∷ made device_node
              ∷ undone device_node
              ∷ undone class_of_device
              ∷ undone region
              ∷ [],
        )
        | none ↦
            (pos 0, made region ∷ made class_of_device ∷ made device_node ∷ made cdev_added ∷ [])
      ]
    ]
  ]
]

unfoldable pub scull_exit : Params → ScullDev → ScullDev × List Event
unfolding scull_trim
scull_exit params dev = (
  scull_trim params dev,
  undone cdev_added ∷ undone device_node ∷ undone class_of_device ∷ undone region ∷ [],
)

abbrev code : Registered → ℕ
code region = 0
code class_of_device = 1
code device_node = 2
code cdev_added = 3

-- What stands after a log, the last first; `none` when something is undone out of turn.
abbrev pub standing : List Registered → List Event → Option (List Registered)
standing l [] = some l
standing l (made x ∷ log) = standing (x ∷ l) log
standing [] (undone y ∷ log) = none
standing (x ∷ l) (undone y ∷ log) =
    let rest = standing l log in if code x == code y then rest else none

-- Whatever the kernel answers, the module is loaded with all it needs, and `scull_exit` undoes the
-- whole in the reverse order and leaves the device without memory; or `scull_init` returns the error
-- of the first call that failed, and what was registered before it is undone in the reverse order.
pub scull_init-scull_exit :
    (answers : InitAnswers) (params : Params) (dev : ScullDev)
    → let (ret, log) = scull_init answers in
      let (dev', log') = scull_exit params dev in
      ((ret ≡ pos 0) × (standing [] (log ++ log') ≡ some []) × (dev'.chain ≡ []) × (dev'.size ≡ 0))
      ⊎ ((standing [] log ≡ some [])
          × ((answers.alloc_chrdev_region ≡ some ret)
              ⊎ (answers.class_create ≡ some ret)
              ⊎ (answers.device_create ≡ some ret)
              ⊎ (answers.cdev_add ≡ some ret)))
unfolding scull_init scull_exit scull_trim
scull_init-scull_exit answers params dev = ground arith
