-- ===== src/Examples.antt =====
-- Each theorem at an input, and runs of the definitions, by the parts of the program.
mod Users
mod Records
mod Editor
mod Words
mod System
mod Ranges
mod Brc
mod Screen
mod Input
mod Posts
mod Talk
mod Programs
