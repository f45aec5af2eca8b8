-- ===== src/Gitignore.antt =====
-- The rules of .gitignore files: tools/gitignore/gitignore.py.
pub mod Patterns
pub mod Filter
